-- ===== src/Routes/Counted.antt =====
-- internal/jobs/unit_urls.go: which chapters the enriched list has.
use shiori_server.Prelude.{
  ℕ, suc, ◌+◌, ◌≡◌, refl, Bool, true, false, not, ◌&&◌, ◌∙◌, ◌||◌, List, [], ◌∷◌, ◌++◌, map, arith,
  inl, inr, ◌==◌, if◌then◌else◌, All, Bool-cases, ap,
}
use shiori_server.Chunker.Text.{trim_space, trim_after, reverse_onto, same}
use shiori_server.Chunker.Markdown.{is_empty, one_of}
use shiori_server.Extract.Paging.{same_eq, same_refl}
use shiori_server.Routes.Enrich.{
  Discovered, Entry, object, no_object, with_points, without_zeros, with_zero, normalize, number_in,
  fill, seen_in, missing, enrich,
}

-- The entry is a chapter that states a number, and that number is in normal form this one.
abbrev pub has_number : List ℕ → Entry → Bool
has_number n no_object = false
has_number n (object number title url) =
    not (is_empty (trim_space number)) && same (number_in number) n

-- The normal form of no number.
abbrev pub chapter_zero : List ℕ
chapter_zero = b'0' ∷ []

-- How many chapters of a list have the number.
abbrev pub count : List ℕ → List Entry → ℕ
count n [] = 0
count n (e ∷ es) = let rest = count n es in if has_number n e then suc rest else rest

abbrev pub is_discovered : List ℕ → List Discovered → Bool
is_discovered n [] = false
is_discovered n (d ∷ ds) = same (normalize d.number) n || is_discovered n ds

with_zero-full : (s : List ℕ) → is_empty (with_zero s) ≡ false
with_zero-full [] = refl
with_zero-full (c ∷ cs) = ground arith

pub normalize-full : (s : List ℕ) → is_empty (normalize s) ≡ false
unfolding normalize
normalize-full s = with_zero-full (without_zeros (trim_space (with_points s)))

pub number_in-full : (s : List ℕ) → is_empty (number_in s) ≡ false
unfolding number_in
number_in-full s = normalize-full (trim_space s)

has_number-fill :
    (ds : List Discovered) (n : List ℕ) (e : Entry) → has_number n (fill ds e) ≡ has_number n e
unfolding fill
has_number-fill ds n no_object = refl
has_number-fill ds n (object number title url) = ground arith

count-fill :
    (ds : List Discovered) (n : List ℕ) (es : List Entry) → count n (map (fill ds) es) ≡ count n es
count-fill ds n [] = refl
count-fill ds n (e ∷ es) = rw (has_number-fill ds n e, count-fill ds n es) refl

count-append : (n : List ℕ) (xs ys : List Entry) → count n (xs ++ ys) ≡ count n xs + count n ys
count-append n [] ys = omega arith
count-append n (x ∷ xs) ys = ground (arith, count-append n xs ys)

-- An entry that is appended gives its number back, as the texts of discovered numbers have no
-- white space around them.
abbrev pub Tight : Discovered → Type 0
Tight d = trim_space d.number ≡ d.number

same_swap : (s t : List ℕ) → same s t ≡ true → same t s ≡ true
same_swap s t h = rw (same_eq s t h) (same_refl t)

same_other : (s t : List ℕ) → same s t ≡ false → same t s ≡ false
same_other s t h = elim (Bool-cases (same t s)) [
  | inl e ↦ absurd (ground (arith, h, same_swap t s e))
  | inr e ↦ e
]

number_in-Tight : (d : Discovered) → Tight d → number_in d.number ≡ normalize d.number
unfolding number_in
number_in-Tight d h = ap normalize h

normalize-blank : (t : List ℕ) → is_empty t ≡ true → normalize t ≡ chapter_zero
unfolding normalize with_points without_zeros trim_space trim_after reverse_onto
normalize-blank [] h = refl
normalize-blank (c ∷ t) h = cc h

-- An entry without a number has no other number than 0.
has_number-same :
    (n number title url : List ℕ)
    → same n chapter_zero ≡ false
    → has_number n (object number title url) ≡ same (number_in number) n
unfolding number_in
has_number-same n number title url z = elim (Bool-cases (is_empty (trim_space number))) [
  | inl blank ↦
      rw (blank, normalize-blank (trim_space number) blank, same_other n chapter_zero z) refl
  | inr stated ↦ rw stated refl
]

has_number-Tight :
    (n : List ℕ) (d : Discovered)
    → same n chapter_zero ≡ false
    → Tight d
    → has_number n (object d.number d.title d.url) ≡ same (normalize d.number) n
has_number-Tight n d z h =
    has_number-same n d.number d.title d.url z ∙ ap (λ m. same m n) (number_in-Tight d h)

count-missing :
    (n : List ℕ) (seen : List (List ℕ)) (ds : List Discovered)
    → same n chapter_zero ≡ false
    → All Tight ds
    → count n (missing seen ds) ≡ (if one_of n seen then 0 else if is_discovered n ds then 1 else 0)
unfolding missing
count-missing n seen [] z h = ground arith
count-missing n seen (d ∷ ds) z h = elim (Bool-cases (one_of (normalize d.number) seen)) [
  | inl old ↦ elim (Bool-cases (same (normalize d.number) n)) [
    | inl e ↦
        let eq = same_eq (normalize d.number) n e in
        let old' : one_of n seen ≡ true = rw (← eq) old in
        ground (arith, old, old', count-missing n seen ds z h.1)
    | inr e ↦ ground (arith, old, e, count-missing n seen ds z h.1)
  ]
  | inr new ↦
      let counted = count-missing n (normalize d.number ∷ seen) ds z h.1 in
      let full = normalize-full d.number in
      elim (Bool-cases (same (normalize d.number) n)) [
        | inl e ↦
            let eq = same_eq (normalize d.number) n e in
            let new' : one_of n seen ≡ false = rw (← eq) new in
            let swapped = same_swap (normalize d.number) n e in
            ground (arith, new, full, new', e, swapped, has_number-Tight n d z h.0, counted)
        | inr e ↦
            let apart = same_other (normalize d.number) n e in
            ground (arith, new, full, e, apart, has_number-Tight n d z h.0, counted)
      ]
]

seen-count :
    (n : List ℕ) (es : List Entry)
    → same n chapter_zero ≡ false
    → one_of n (seen_in es) ≡ (if count n es == 0 then false else true)
unfolding seen_in
seen-count n [] z = refl
seen-count n (no_object ∷ es) z = seen-count n es z
seen-count n (object number title url ∷ es) z = elim (Bool-cases (same (number_in number) n)) [
  | inl e ↦ ground (
    arith,
    number_in-full number,
    e,
    same_swap (number_in number) n e,
    has_number-same n number title url z,
    seen-count n es z,
  )
  | inr e ↦ ground (
    arith,
    number_in-full number,
    e,
    same_other (number_in number) n e,
    has_number-same n number title url z,
    seen-count n es z,
  )
]

-- Enriching a list repeats no chapter and adds each that is missing: a number other than 0 keeps as
-- many of the entries that state it as it had, and one that no entry states gets one if it is among
-- the discovered units and none if it is not. Numbers are compared in their normal form, and the
-- discovered ones have no white space around them. Chapter 0 is left out, as an entry that states no
-- number counts as that chapter.
pub count-enrich :
    (items : List Entry) (ds : List Discovered) (n : List ℕ)
    → same n chapter_zero ≡ false
    → All Tight ds
    → count n (enrich items ds)
      ≡ (if count n items == 0 then if is_discovered n ds then 1 else 0 else count n items)
unfolding enrich
count-enrich items [] n z h = ground arith
count-enrich items (d ∷ ds) n z h = ground (
  arith,
  count-append n (map (fill (d ∷ ds)) items) (missing (seen_in items) (d ∷ ds)),
  count-fill (d ∷ ds) n items,
  count-missing n (seen_in items) (d ∷ ds) z h,
  seen-count n items z,
)
