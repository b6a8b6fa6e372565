-- ===== src/Browser/Sessions/Leases.antt =====
-- internal/platform/browser/chromedp/provider.go: who uses the profile of a domain.
use shiori_server.Prelude.{
  ℕ, ◌+◌, ◌≡◌, refl, String, Bool, true, false, ◌&&◌, ◌||◌, Option, none, some, List, [], ◌∷◌,
  arith, ◌==◌, str_eq, eq_iff, if◌then◌else◌, inl, inr, Bool-cases, Option-cases,
}
use shiori_server.Browser.Sessions.{
  BrowserSession, Browser, no_sessions, is_held, acquire_profile, release_profile, take_session,
  begin_navigate, given_up, fail_navigate, store_session, finish_navigate, navigate_with_solver,
  session_closed, close_session, BrowserStep, begins, solves, fails, finishes, closes, browser_step,
  browser_run,
}

-- The session is a Chromium on the profile.
abbrev pub is_on : String → BrowserSession → Bool
is_on k s = s.chromium && str_eq s.profile k

abbrev pub users : String → List BrowserSession → ℕ
users k [] = 0
users k (s ∷ ss) = (if is_on k s then 1 else 0) + users k ss

-- How many Chromiums run on a profile's directory, or are about to.
abbrev pub uses : String → Browser → ℕ
uses k b = users k b.navigating + users k b.sessions

abbrev pub all_chromium : List BrowserSession → Bool
all_chromium [] = true
all_chromium (s ∷ ss) = s.chromium && all_chromium ss

-- A profile is in use once where its lease is held, and not at all where it is free.
abbrev pub IsExclusive : Browser → Type 0
IsExclusive b =
    ((k : String) → uses k b ≡ (if is_held k b.held then 1 else 0))
    × (all_chromium b.navigating ≡ true)

is_held-release :
    (k j : String) (held : List String)
    → is_held j (release_profile k held) ≡ (if str_eq k j then false else is_held j held)
is_held-release k j [] = ground arith
is_held-release k j (i ∷ is) =
    ground (arith, is_held-release k j is, eq_iff i k, eq_iff i j, eq_iff k j)

users-take :
    (i : ℕ) (ss rest : List BrowserSession) (s : BrowserSession) (k : String)
    → take_session i ss ≡ some (s, rest)
    → users k ss ≡ (if is_on k s then 1 else 0) + users k rest
unfolding take_session
users-take i [] rest s k h = cc h
users-take i (x ∷ xs) rest s k h = elim (Bool-cases (x.id == i)) [
  | inl e ↦ ground (arith, e, h)
  | inr e ↦ elim (Option-cases (take_session i xs)) [
    | inl n ↦ ground (arith, e, n, h)
    | inr ((found, others), f) ↦ ground (arith, e, f, h, users-take i xs others found k f)
  ]
]

take-chromium :
    (i : ℕ) (ss rest : List BrowserSession) (s : BrowserSession)
    → take_session i ss ≡ some (s, rest)
    → all_chromium ss ≡ true
    → (s.chromium ≡ true) × (all_chromium rest ≡ true)
unfolding take_session
take-chromium i [] rest s h a = cc h
take-chromium i (x ∷ xs) rest s h a = elim (Bool-cases (x.id == i)) [
  | inl e ↦ (ground (arith, e, h, a), ground (arith, e, h, a))
  | inr e ↦ elim (Option-cases (take_session i xs)) [
    | inl n ↦ absurd (ground (arith, e, n, h))
    | inr ((found, others), f) ↦
        let inner = take-chromium i xs others found f (ground (arith, a)) in
        (ground (arith, e, f, h, a, inner), ground (arith, e, f, h, a, inner))
  ]
]

-- A lease that is released leaves its profile without users.
released_uses :
    (s : BrowserSession) (held : List String) (k : String) (before rest : ℕ)
    → s.chromium ≡ true
    → before ≡ (if is_on k s then 1 else 0) + rest
    → before ≡ (if is_held k held then 1 else 0)
    → rest ≡ (if is_held k (release_profile s.profile held) then 1 else 0)
released_uses s held k before rest c e h = ground (arith, c, e, h, is_held-release s.profile k held)

begin-IsExclusive :
    (key : String) (b : Browser) → IsExclusive b → IsExclusive (begin_navigate key b)
unfolding begin_navigate acquire_profile
begin-IsExclusive key b h = elim (Bool-cases (is_held key b.held)) [
  | inl e ↦ rw e h
  | inr e ↦ rw e (λ k. grows k (h.0 k) (h.0 key) e, h.1)
]
  where
    grows :
        (k : String)
        → uses k b ≡ (if is_held k b.held then 1 else 0)
        → uses key b ≡ (if is_held key b.held then 1 else 0)
        → is_held key b.held ≡ false
        → ((if str_eq key k then 1 else 0) + users k b.navigating) + users k b.sessions
          ≡ (if str_eq key k || is_held k b.held then 1 else 0)
    grows k here there e = elim (Bool-cases (str_eq key k)) [
      | inl same ↦
          let eq : key ≡ k = (eq_iff key k).0 same in
          let free : is_held k b.held ≡ false = rw (← eq) e in
          rw (same) (ground (arith, free, here))
      | inr other ↦ rw (other) (ground (arith, here))
    ]

fail-IsExclusive : (i : ℕ) (b : Browser) → IsExclusive b → IsExclusive (fail_navigate i b)
unfolding fail_navigate
fail-IsExclusive i b h = go (take_session i b.navigating) refl
  where
    go :
        (o : Option (BrowserSession × List BrowserSession))
        → take_session i b.navigating ≡ o
        → IsExclusive (given_up b o)
    go none e = h
    go (some (s, rest)) e =
        let chromium = take-chromium i b.navigating rest s e h.1 in
        (
          λ k.
              released_uses s b.held k (uses k b) (users k rest + users k b.sessions) chromium.0
                (omega (arith, users-take i b.navigating rest s k e)) (h.0 k),
          chromium.1,
        )

finish-IsExclusive : (i : ℕ) (b : Browser) → IsExclusive b → IsExclusive (finish_navigate i b)
unfolding finish_navigate
finish-IsExclusive i b h = go (take_session i b.navigating) refl
  where
    go :
        (o : Option (BrowserSession × List BrowserSession))
        → take_session i b.navigating ≡ o
        → IsExclusive (store_session b o)
    go none e = h
    go (some (s, rest)) e = (
      λ k. omega (arith, users-take i b.navigating rest s k e, h.0 k),
      (take-chromium i b.navigating rest s e h.1).1,
    )

close-IsExclusive : (i : ℕ) (b : Browser) → IsExclusive b → IsExclusive (close_session i b)
unfolding close_session
close-IsExclusive i b h = go (take_session i b.sessions) refl
  where
    go :
        (o : Option (BrowserSession × List BrowserSession))
        → take_session i b.sessions ≡ o
        → IsExclusive (session_closed b o)
    go none e = h
    go (some (s, rest)) e = elim (Bool-cases s.chromium) [
      | inl c ↦ rw c (
        λ k.
            released_uses s b.held k (uses k b) (users k b.navigating + users k rest) c
              (omega (arith, users-take i b.sessions rest s k e)) (h.0 k),
        h.1,
      )
      | inr c ↦ rw c (λ k. other_uses k (h.0 k) (users-take i b.sessions rest s k e) c, h.1)
    ]
      where
        other_uses :
            (k : String)
            → uses k b ≡ (if is_held k b.held then 1 else 0)
            → users k b.sessions ≡ (if is_on k s then 1 else 0) + users k rest
            → s.chromium ≡ false
            → users k b.navigating + users k rest ≡ (if is_held k b.held then 1 else 0)
        other_uses k here taken c = ground (arith, here, taken, c)

browser_step-IsExclusive :
    (b : Browser) (s : BrowserStep) → IsExclusive b → IsExclusive (browser_step b s)
unfolding navigate_with_solver
browser_step-IsExclusive b (begins key) h = begin-IsExclusive key b h
browser_step-IsExclusive b (solves key) h = (λ k. ground (arith, h.0 k), h.1)
browser_step-IsExclusive b (fails i) h = fail-IsExclusive i b h
browser_step-IsExclusive b (finishes i) h = finish-IsExclusive i b h
browser_step-IsExclusive b (closes i) h = close-IsExclusive i b h

run_keeps :
    (b : Browser) (steps : List BrowserStep) → IsExclusive b → IsExclusive (browser_run b steps)
run_keeps b [] h = h
run_keeps b (s ∷ ss) h = run_keeps (browser_step b s) ss (browser_step-IsExclusive b s h)

-- A domain's profile directory is used by one Chromium at most and its lease never leaks: after any
-- calls in any order, those of several jobs between each other, a profile is used once where its
-- lease is held and by no one where it is free.
pub browser_run-IsExclusive :
    (steps : List BrowserStep) → IsExclusive (browser_run no_sessions steps)
browser_run-IsExclusive steps = run_keeps no_sessions steps (λ k. refl, refl)
