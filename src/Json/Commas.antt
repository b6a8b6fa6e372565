-- ===== src/Json/Commas.antt =====
-- internal/extraction/nuextract/provider.go: what stripTrailingCommas and the whole of
-- extractAndRepairJSON make of a text.
use shiori_server.Prelude.{
  ℕ, ◌≤◌, ◌<◌, ◌≡◌, refl, ◌≢◌, ◌∙◌, ap, Bool, true, false, ◌||◌, ◌&&◌, Option, none, some, List, [],
  ◌∷◌, ◌++◌, arith, inl, inr, ◌⊎◌, ◌==◌, if◌then◌else◌, Bool-cases, Option-cases, length,
}
use shiori_server.Json.Repair.{
  Mode, outside, inside, escaped, next_mode, next_stack, mode_after, stack_after, is_trailing,
  strip_from, strip_trailing_commas, complete_object, next_depth, prepend, from_brace, candidate,
  extract_and_repair_json, repair_truncated, is_close, is_outside,
}
use shiori_server.Json.Closing.{repair_truncated-IsScanned}
use shiori_server.Json.Reading.{IsClosed, scanned-IsClosed}

trailing_comma :
    (m : Mode) (c : ℕ) (cs k : List ℕ)
    → is_trailing m c cs ≡ true
    → (c ≡ b',') × (next_mode m c ≡ m) × (next_stack m c k ≡ k)
unfolding is_trailing
trailing_comma outside c cs k h = ground arith
trailing_comma inside c cs k h = cc
trailing_comma escaped c cs k h = cc

strip_from-state :
    (m : Mode) (k s : List ℕ)
    → (mode_after m (strip_from m s).0 ≡ mode_after m s)
      × (stack_after m k (strip_from m s).0 ≡ stack_after m k s)
unfolding strip_from mode_after stack_after
strip_from-state m k [] = (refl, refl)
strip_from-state m k (c ∷ cs) = elim (Bool-cases (is_trailing m c cs)) [
  | inl cut ↦
      let (_, mode, stack) = trailing_comma m c cs k cut in
      let ih = strip_from-state m k cs in rw cut (rw mode (rw stack ih))
  | inr kept ↦ rw kept (strip_from-state (next_mode m c) (next_stack m c k) cs)
]

abbrev pub without_commas : List ℕ → List ℕ
without_commas [] = []
without_commas (c ∷ cs) = let rest = without_commas cs in if c == b',' then rest else c ∷ rest

strip_from-commas : (m : Mode) (s : List ℕ) → without_commas (strip_from m s).0 ≡ without_commas s
unfolding strip_from
strip_from-commas m [] = refl
strip_from-commas m (c ∷ cs) = elim (Bool-cases (is_trailing m c cs)) [
  | inl cut ↦ ground (arith, trailing_comma m c cs [] cut, strip_from-commas (next_mode m c) cs)
  | inr kept ↦ ground (arith, strip_from-commas (next_mode m c) cs)
]

strip_from-length : (m : Mode) (s : List ℕ) → length (strip_from m s).0 ≤ length s
unfolding strip_from
strip_from-length m [] = omega arith
strip_from-length m (c ∷ cs) = ground (arith, strip_from-length (next_mode m c) cs)

strip_from-changed :
    (m : Mode) (s : List ℕ)
    → (((strip_from m s).1 ≡ false) × ((strip_from m s).0 ≡ s))
      ⊎ (((strip_from m s).1 ≡ true) × (length (strip_from m s).0 < length s))
unfolding strip_from
strip_from-changed m [] = inl (refl, refl)
strip_from-changed m (c ∷ cs) =
    ground (arith, strip_from-changed (next_mode m c) cs, strip_from-length (next_mode m c) cs)

-- stripTrailingCommas removes commas only, and none that a scan of strings and brackets sees: all
-- other characters stay in their order, the scan ends in the same state, and the flag says whether
-- the text has become shorter or is the same.
pub strip_trailing_commas_lem :
    (s : List ℕ)
    → (without_commas (strip_trailing_commas s).0 ≡ without_commas s)
      × (mode_after outside (strip_trailing_commas s).0 ≡ mode_after outside s)
      × (stack_after outside [] (strip_trailing_commas s).0 ≡ stack_after outside [] s)
      × ((((strip_trailing_commas s).1 ≡ false) × ((strip_trailing_commas s).0 ≡ s))
          ⊎ (((strip_trailing_commas s).1 ≡ true)
              × (length (strip_trailing_commas s).0 < length s)))
unfolding strip_trailing_commas
strip_trailing_commas_lem s =
    let (mode, stack) = strip_from-state outside [] s in
    (strip_from-commas outside s, mode, stack, strip_from-changed outside s)

strip_unchanged :
    (s : List ℕ) → (strip_trailing_commas s).1 ≡ false → (strip_trailing_commas s).0 ≡ s
strip_unchanged s h = ground (arith, strip_trailing_commas_lem s)

from_brace-suffix : (s t : List ℕ) → from_brace s ≡ some t → (pre : List ℕ) × (s ≡ pre ++ t)
unfolding from_brace
from_brace-suffix [] t h = cc
from_brace-suffix (c ∷ cs) t h = elim (Bool-cases (c == b'{')) [
  | inl here ↦ ([], ground arith)
  | inr later ↦ let (pre, e) = from_brace-suffix cs t (ground arith) in (c ∷ pre, ap (λ x. c ∷ x) e)
]

prepend-some :
    (c : ℕ) (o : Option (List ℕ)) (t : List ℕ)
    → prepend c o ≡ some t
    → (u : List ℕ) × (o ≡ some u) × (t ≡ c ∷ u)
prepend-some c none t h = cc
prepend-some c (some u) t h = (u, refl, cc)

complete_object-prefix :
    (m : Mode) (d : ℕ) (s t : List ℕ)
    → complete_object m d s ≡ some t
    → (post : List ℕ) × (s ≡ t ++ post)
unfolding complete_object
complete_object-prefix m d [] t h = cc
complete_object-prefix m d (c ∷ cs) t h = elim (Bool-cases (is_outside m && is_close c && d == 1)) [
  | inl stop ↦ (cs, ground arith)
  | inr on ↦
      let (u, found, e) =
        prepend-some c (complete_object (next_mode m c) (next_depth m c d) cs) t (rw on at h) in
      let (post, q) = complete_object-prefix (next_mode m c) (next_depth m c d) cs u found in
      (post, rw e (ap (λ x. c ∷ x) q))
]

-- Inversion of a successful extraction.
extract_some :
    (valid : List ℕ → Bool) (s j : List ℕ) (repaired : Bool)
    → extract_and_repair_json valid s ≡ some (j, repaired)
    → (t : List ℕ) × (from_brace s ≡ some t)
      × (j ≡ (strip_trailing_commas (candidate t).0).0)
      × (repaired ≡ ((candidate t).1 || (strip_trailing_commas (candidate t).0).1))
      × (valid j ≡ true)
unfolding extract_and_repair_json
extract_some valid s j repaired h = elim (Option-cases (from_brace s)) [
  | inl missing ↦ absurd (ground arith)
  | inr (t, found) ↦ (t, found, ground arith, ground arith, ground arith)
]

candidate_whole :
    (t : List ℕ) → (candidate t).1 ≡ false → complete_object outside 0 t ≡ some (candidate t).0
unfolding candidate
candidate_whole t h = ground arith

candidate_cut :
    (t : List ℕ) → complete_object outside 0 t ≡ none → candidate t ≡ (repair_truncated t, true)
unfolding candidate
candidate_cut t h = ground arith

-- Whatever the validator accepts, an extraction that is not marked as repaired is a part of the
-- model's output, letter by letter, and the validator accepts it.
pub extract_verbatim :
    (valid : List ℕ → Bool) (s j : List ℕ)
    → extract_and_repair_json valid s ≡ some (j, false)
    → (valid j ≡ true) × ((pre : List ℕ) × (post : List ℕ) × (s ≡ pre ++ (j ++ post)))
extract_verbatim valid s j h =
    let (t, found, e, flag, accepted) = extract_some valid s j false h in
    let whole : (candidate t).1 ≡ false = ground arith in
    let plain : (strip_trailing_commas (candidate t).0).1 ≡ false = ground arith in
    let same : j ≡ (candidate t).0 = e ∙ strip_unchanged (candidate t).0 plain in
    let (pre, before) = from_brace-suffix s t found in
    let (post, after) =
      complete_object-prefix outside 0 t (candidate t).0 (candidate_whole t whole) in
    (accepted, (pre, post, rw same (before ∙ ap (λ x. pre ++ x) after)))

-- Where the model's output was cut off inside its object, and not right after a backslash inside a
-- string, a reader of the extraction ends outside of strings with every bracket closed, each by its
-- own closing bracket.
pub extract_truncated-IsClosed :
    (valid : List ℕ → Bool) (s t j : List ℕ) (repaired : Bool)
    → from_brace s ≡ some t
    → complete_object outside 0 t ≡ none
    → mode_after outside t ≢ escaped
    → extract_and_repair_json valid s ≡ some (j, repaired)
    → IsClosed j × (repaired ≡ true)
extract_truncated-IsClosed valid s t j repaired found cut no_escape h =
    let (t', found', e, flag, _) = extract_some valid s j repaired h in
    let here : t' ≡ t = ground arith in
    let c : candidate t ≡ (repair_truncated t, true) = candidate_cut t cut in
    let (mode, stack) = repair_truncated-IsScanned t no_escape in
    let (_, mode', stack', _) = strip_trailing_commas_lem (repair_truncated t) in
    (rw (e, here, c) (scanned-IsClosed _ (mode' ∙ mode) (stack' ∙ stack)), flag ∙ rw (here, c) refl)
