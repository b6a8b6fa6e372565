-- ===== src/Browser/Cookies/Latest.antt =====
-- internal/platform/browser/chromedp/solver.go: which cookies mergeSolverCookies keeps.
use shiori_server.Prelude.{
  ℕ, ◌≡◌, refl, sym, ap, ◌∙◌, true, false, Option, none, some, List, [], ◌∷◌, ◌++◌, arith, inl, inr,
  same_bytes, same_bytes_eq, same_bytes_refl, if◌then◌else◌, Bool-cases,
}
use shiori_server.Chunker.Text.{trim_space}
use shiori_server.Chunker.Markdown.{is_empty}
use shiori_server.Browser.Cookies.{
  Cookie, is_dead, find_cookie, put_cookie, drop_cookie, cookie_key, add_cookie, add_cookies,
  merged_cookies,
}

key_trans : (i j k : List ℕ) → same_bytes i j ≡ true → same_bytes i k ≡ same_bytes j k
key_trans i j k h = rw (same_bytes_eq i j h) refl

key_apart :
    (i j k : List ℕ) → same_bytes i j ≡ true → same_bytes i k ≡ false → same_bytes k j ≡ false
key_apart i j k f e = elim (Bool-cases (same_bytes k j)) [
  | inl g ↦
      let same = same_bytes_eq i j f ∙ sym (same_bytes_eq k j g) in
      absurd (ground (arith, e, same, same_bytes_refl k))
  | inr g ↦ g
]

find-put_cookie :
    (k j : List ℕ) (c : Cookie) (m : List (List ℕ × Cookie))
    → find_cookie j (put_cookie k c m) ≡ (if same_bytes k j then some c else find_cookie j m)
find-put_cookie k j c [] = refl
find-put_cookie k j c ((i, d) ∷ m) = elim (Bool-cases (same_bytes i k)) [
  | inl e ↦ rw (e, key_trans i k j e) (ground arith)
  | inr e ↦ elim (Bool-cases (same_bytes i j)) [
    | inl f ↦ let apart : same_bytes k j ≡ false = key_apart i j k f e in rw (e, f, apart) refl
    | inr f ↦ rw (e, f) (find-put_cookie k j c m)
  ]
]

find-drop_cookie :
    (k j : List ℕ) (m : List (List ℕ × Cookie))
    → find_cookie j (drop_cookie k m) ≡ (if same_bytes k j then none else find_cookie j m)
find-drop_cookie k j [] = ground arith
find-drop_cookie k j ((i, d) ∷ m) = elim (Bool-cases (same_bytes i k)) [
  | inl e ↦ rw (e, key_trans i k j e) (ground (arith, find-drop_cookie k j m))
  | inr e ↦ elim (Bool-cases (same_bytes i j)) [
    | inl f ↦ let apart : same_bytes k j ≡ false = key_apart i j k f e in rw (e, f, apart) refl
    | inr f ↦ rw (e, f) (find-drop_cookie k j m)
  ]
]

module _ (lower : List ℕ → List ℕ) where
  -- What a cookie says of a key: nothing where its name is blank or its key another one, that there
  -- is no cookie where it has expired, and itself otherwise.
  abbrev pub says : ℕ → List ℕ → Cookie → Option Cookie → Option Cookie
  says now k c before =
      if is_empty (trim_space c.name)
      then before
      else if same_bytes (cookie_key lower c) k
      then if is_dead now c then none else some c
      else before

  -- The last word of a list of cookies on a key.
  abbrev pub latest : ℕ → List ℕ → List Cookie → Option Cookie → Option Cookie
  latest now k [] before = before
  latest now k (c ∷ cs) before = latest now k cs (says now k c before)

  find-add_cookie :
      (now : ℕ) (k : List ℕ) (c : Cookie) (m : List (List ℕ × Cookie))
      → find_cookie k (add_cookie lower now c m) ≡ says now k c (find_cookie k m)
  unfolding add_cookie
  find-add_cookie now k c m = elim (Bool-cases (is_empty (trim_space c.name))) [
    | inl e ↦ rw e refl
    | inr e ↦ elim (Bool-cases (is_dead now c)) [
      | inl d ↦ rw (e, d, find-drop_cookie (cookie_key lower c) k m) refl
      | inr d ↦ rw (e, d, find-put_cookie (cookie_key lower c) k c m) refl
    ]
  ]

  find-add_cookies :
      (now : ℕ) (k : List ℕ) (cs : List Cookie) (m : List (List ℕ × Cookie))
      → find_cookie k (add_cookies lower now cs m) ≡ latest now k cs (find_cookie k m)
  unfolding add_cookies
  find-add_cookies now k [] m = refl
  find-add_cookies now k (c ∷ cs) m =
      find-add_cookies now k cs (add_cookie lower now c m)
      ∙ ap (latest now k cs) (find-add_cookie now k c m)

  latest-append :
      (now : ℕ) (k : List ℕ) (cs ds : List Cookie) (before : Option Cookie)
      → latest now k ds (latest now k cs before) ≡ latest now k (cs ++ ds) before
  latest-append now k [] ds before = refl
  latest-append now k (c ∷ cs) ds before = latest-append now k cs ds (says now k c before)

  -- Every cookie of the map has its key, has not expired, and has no other with its key after it.
  abbrev pub IsKeyed : ℕ → List (List ℕ × Cookie) → Type 0
  IsKeyed now [] = Unit
  IsKeyed now ((j, c) ∷ m) =
      (cookie_key lower c ≡ j) × (is_dead now c ≡ false) × (find_cookie j m ≡ none) × IsKeyed now m

  put-IsKeyed :
      (now : ℕ) (c : Cookie) (m : List (List ℕ × Cookie))
      → is_dead now c ≡ false
      → IsKeyed now m
      → IsKeyed now (put_cookie (cookie_key lower c) c m)
  put-IsKeyed now c [] h k = (refl, h, refl, tt)
  put-IsKeyed now c ((j, d) ∷ m) h k = elim (Bool-cases (same_bytes j (cookie_key lower c))) [
    | inl e ↦
        let same = same_bytes_eq j (cookie_key lower c) e in rw e (refl, h, rw (← same) k.2, k.3)
    | inr e ↦
        let apart : same_bytes (cookie_key lower c) j ≡ false =
          key_apart j j (cookie_key lower c) (same_bytes_refl j) e in
        let absent = find-put_cookie (cookie_key lower c) j c m in
        rw e (k.0, k.1, rw (absent, apart) k.2, put-IsKeyed now c m h k.3)
  ]

  drop-IsKeyed :
      (now : ℕ) (i : List ℕ) (m : List (List ℕ × Cookie))
      → IsKeyed now m
      → IsKeyed now (drop_cookie i m)
  drop-IsKeyed now i [] k = tt
  drop-IsKeyed now i ((j, d) ∷ m) k = elim (Bool-cases (same_bytes j i)) [
    | inl e ↦ rw e (drop-IsKeyed now i m k.3)
    | inr e ↦
        let apart : same_bytes i j ≡ false = key_apart j j i (same_bytes_refl j) e in
        rw e (k.0, k.1, rw (find-drop_cookie i j m, apart) k.2, drop-IsKeyed now i m k.3)
  ]

  add_cookies-IsKeyed :
      (now : ℕ) (cs : List Cookie) (m : List (List ℕ × Cookie))
      → IsKeyed now m
      → IsKeyed now (add_cookies lower now cs m)
  unfolding add_cookies add_cookie
  add_cookies-IsKeyed now [] m h = h
  add_cookies-IsKeyed now (c ∷ cs) m h = add_cookies-IsKeyed now cs (add_cookie lower now c m) step
    where
      step : IsKeyed now (add_cookie lower now c m)
      step = elim (Bool-cases (is_empty (trim_space c.name))) [
        | inl e ↦ rw e h
        | inr e ↦ elim (Bool-cases (is_dead now c)) [
          | inl d ↦ rw (e, d) (drop-IsKeyed now (cookie_key lower c) m h)
          | inr d ↦ rw (e, d) (put-IsKeyed now c m d h)
        ]
      ]

  -- Merging takes the last word of the two lists, the incoming one after the old: under each key,
  -- which is made of the domain in lower case, the path and the name, the last cookie with a name
  -- stays unless it has expired, and then there is none. The result has each key once and no cookie
  -- that has expired.
  pub merged_cookies_lem :
      (now : ℕ) (existing incoming : List Cookie) (k : List ℕ)
      → (find_cookie k (merged_cookies lower now existing incoming)
          ≡ latest now k (existing ++ incoming) none)
        × IsKeyed now (merged_cookies lower now existing incoming)
  unfolding merged_cookies
  merged_cookies_lem now existing incoming k = (
    find-add_cookies now k incoming (add_cookies lower now existing [])
        ∙ ap (latest now k incoming) (find-add_cookies now k existing [])
        ∙ latest-append now k existing incoming none,
    add_cookies-IsKeyed now incoming (add_cookies lower now existing [])
        (add_cookies-IsKeyed now existing [] tt),
  )
