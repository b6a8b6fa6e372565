-- ===== src/Json/Closing.antt =====
-- internal/extraction/nuextract/provider.go: repairTruncated closes what a truncated text left open.
use shiori_server.Prelude.{
  ℕ, ◌≡◌, refl, ◌≢◌, ◌∙◌, true, List, [], ◌∷◌, ◌++◌, arith, ◌⊎◌, append-nil, if◌then◌else◌, All,
}
use shiori_server.Json.Repair.{
  Mode, outside, inside, escaped, next_mode, next_stack, mode_after, stack_after, in_string,
  repair_truncated,
}

-- The loop ends outside of strings with an empty stack.
abbrev pub IsScanned : List ℕ → Type 0
IsScanned s = (mode_after outside s ≡ outside) × (stack_after outside [] s ≡ [])

abbrev Closers : List ℕ → Type 0
Closers = All (λ c. (c ≡ b'}') ⊎ (c ≡ b']'))

pub mode_after-append :
    (m : Mode) (s t : List ℕ) → mode_after m (s ++ t) ≡ mode_after (mode_after m s) t
unfolding mode_after
mode_after-append m [] t = refl
mode_after-append m (c ∷ s) t = mode_after-append (next_mode m c) s t

pub stack_after-append :
    (m : Mode) (k s t : List ℕ)
    → stack_after m k (s ++ t) ≡ stack_after (mode_after m s) (stack_after m k s) t
unfolding stack_after mode_after
stack_after-append m k [] t = refl
stack_after-append m k (c ∷ s) t = stack_after-append (next_mode m c) (next_stack m c k) s t

-- Outside of strings the closing brackets of a stack close it.
Closers-close :
    (k : List ℕ) → Closers k → (mode_after outside k ≡ outside) × (stack_after outside k k ≡ [])
unfolding mode_after stack_after
Closers-close [] h = (refl, refl)
Closers-close (c ∷ k) h = ground (arith, h.0, Closers-close k h.1)

next_stack-Closers : (m : Mode) (c : ℕ) (k : List ℕ) → Closers k → Closers (next_stack m c k)
next_stack-Closers outside c [] h = ground arith
next_stack-Closers outside c (d ∷ k) h = ground arith
next_stack-Closers inside c k h = h
next_stack-Closers escaped c k h = h

stack_after-Closers : (m : Mode) (k s : List ℕ) → Closers k → Closers (stack_after m k s)
unfolding stack_after
stack_after-Closers m k [] h = h
stack_after-Closers m k (c ∷ s) h =
    stack_after-Closers (next_mode m c) (next_stack m c k) s (next_stack-Closers m c k h)

-- The quote that repairTruncated adds where it sees an open string.
abbrev quote : Mode → List ℕ
quote m = if in_string m then 34 ∷ [] else []

quote_closes :
    (m : Mode) (k t : List ℕ)
    → m ≢ escaped
    → (mode_after m (quote m ++ t) ≡ mode_after outside t)
      × (stack_after m k (quote m ++ t) ≡ stack_after outside k t)
unfolding mode_after stack_after
quote_closes outside k t h = (refl, refl)
quote_closes inside k t h = (refl, refl)
quote_closes escaped k t h = absurd (h refl)

-- repairTruncated keeps the text, adds a quote where a string is open and the missing brackets from
-- the innermost outwards; the result ends outside of strings with every bracket closed, unless the
-- text ends in a backslash inside a string.
pub repair_truncated-IsScanned :
    (s : List ℕ) → mode_after outside s ≢ escaped → IsScanned (repair_truncated s)
unfolding repair_truncated
repair_truncated-IsScanned s h =
    let m = mode_after outside s in
    let k = stack_after outside [] s in
    let (mode, stack) = quote_closes m k k h in
    let (closed_mode, closed_stack) = Closers-close k (stack_after-Closers outside [] s tt) in
    (
      mode_after-append outside s (quote m ++ k) ∙ mode ∙ closed_mode,
      stack_after-append outside [] s (quote m ++ k) ∙ stack ∙ closed_stack,
    )

-- A text that is closed already is left as it is.
pub repair_truncated_closed : (s : List ℕ) → IsScanned s → repair_truncated s ≡ s
unfolding repair_truncated
repair_truncated_closed s (m, k) = rw (m, k) (append-nil s)

inside_stays : (k : List ℕ) → Closers k → mode_after inside k ≡ inside
unfolding mode_after
inside_stays [] h = refl
inside_stays (c ∷ k) h = ground (arith, h.0, inside_stays k h.1)

escaped_quote : (k : List ℕ) → Closers k → in_string (mode_after escaped ((34 ∷ []) ++ k)) ≡ true
unfolding mode_after
escaped_quote k h = rw (inside_stays k h) refl

-- Where the text ends in a backslash inside a string, the quote that is added is escaped and closes
-- nothing: the result ends inside a string.
pub repair_truncated_escaped :
    (s : List ℕ)
    → mode_after outside s ≡ escaped
    → in_string (mode_after outside (repair_truncated s)) ≡ true
unfolding repair_truncated
repair_truncated_escaped s h =
    rw (h, mode_after-append, h)
      (escaped_quote (stack_after outside [] s) (stack_after-Closers outside [] s tt))
