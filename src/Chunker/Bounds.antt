-- ===== src/Chunker/Bounds.antt =====
-- internal/extraction/nuextract/chunker.go: the limit that the splitting keeps.
use shiori_server.Prelude.{
  ℕ, zero, suc, ◌+◌, ◌≤◌, ◌≡◌, List, [], ◌∷◌, ◌++◌, arith, inl, inr, ltb, leb, Bool-cases, length,
  length-append, take, drop, All, concat,
}
use shiori_server.Chunker.Text.{rune_size, split_lines}
use shiori_server.Chunker.Split.{
  cut_back, cut_of, non_empty, split_loop, split_utf8, Building, separator, add_part, add_parts,
  add_lines, split_oversized_block,
}
use shiori_server.Chunker.Pieces.{concat-split_utf8, rune_size_lem}

abbrev pub Short : ℕ → List ℕ → Type 0
Short n s = length s ≤ n

pub All-append :
    (n : ℕ) (a b : List (List ℕ)) → All (Short n) a → All (Short n) b → All (Short n) (a ++ b)
All-append n [] b h k = k
All-append n (x ∷ a) b h k = (h.0, All-append n a b h.1 k)

length-take_le : (n : ℕ) (v : List ℕ) → length (take n v) ≤ n
length-take_le zero v = omega arith
length-take_le (suc n) [] = omega arith
length-take_le (suc n) (b ∷ v) = omega (arith, length-take_le n v)

cut_back_le : (max : ℕ) (v : List ℕ) → cut_back max v ≤ max
unfolding cut_back
cut_back_le zero v = omega arith
cut_back_le (suc n) v = ground (arith, cut_back_le n v)

rune_size_le : (v : List ℕ) → rune_size v ≤ 4
unfolding rune_size
rune_size_le [] = omega arith
rune_size_le (b ∷ v) = (rune_size_lem b v).1

cut_of_le : (n max : ℕ) (v : List ℕ) → max ≤ n → 4 ≤ n → cut_of max v ≤ n
unfolding cut_of
cut_of_le n max v h k = ground (arith, cut_back_le max v, rune_size_le v)

Short-non_empty : (n : ℕ) (v : List ℕ) → Short n v → All (Short n) (non_empty v)
Short-non_empty n [] h = tt
Short-non_empty n (b ∷ v) h = (h, tt)

-- Where the limit is below four bytes a part may still take a whole encoding.
Short-split_loop :
    (fuel n max : ℕ) (v : List ℕ) → max ≤ n → 4 ≤ n → All (Short n) (split_loop fuel max v)
unfolding split_loop
Short-split_loop zero n max v h k = elim (Bool-cases (ltb max (length v))) [
  | inl e ↦ rw (e) tt
  | inr e ↦ rw (e) (Short-non_empty n v (ground arith))
]
Short-split_loop (suc fuel) n max v h k =
    let c = cut_of max v in
    elim (Bool-cases (ltb max (length v))) [
      | inl e ↦ rw (e) (
        omega (arith, cut_of_le n max v h k, length-take_le c v),
        Short-split_loop fuel n max (drop c v) h k,
      )
      | inr e ↦ rw (e) (Short-non_empty n v (ground arith))
    ]

pub Short-split_utf8 : (n max : ℕ) (v : List ℕ) → max ≤ n → 4 ≤ n → All (Short n) (split_utf8 v max)
unfolding split_utf8
Short-split_utf8 n max v h k = elim (Bool-cases (leb (length v) max)) [
  | inl e ↦ rw (e) (ground arith, tt)
  | inr e ↦ rw (e) (Short-split_loop (length v) n max v h k)
]

-- Splitting a line loses nothing and keeps the limit: the parts, put together, are the line, and
-- with a limit of at least four bytes none of them is longer.
pub split_utf8_lem :
    (v : List ℕ) (max : ℕ)
    → 4 ≤ max
    → (concat (split_utf8 v max) ≡ v) × All (Short max) (split_utf8 v max)
split_utf8_lem v max k = (concat-split_utf8 v max, Short-split_utf8 max max v (omega arith) k)

abbrev Fits : ℕ → Building → Type 0
Fits n b = All (Short n) b.0 × Short n b.1

Fits-add_part :
    (n max : ℕ) (p : List ℕ) (b : Building)
    → max ≤ n
    → Short n p
    → Fits n b
    → Fits n (add_part max p b)
unfolding add_part
Fits-add_part n max p (parts, current) h s f =
    elim (Bool-cases (ltb max (length current + length (separator current) + length p))) [
      | inl e ↦ rw (e) (All-append n parts (current ∷ []) f.0 (f.1, tt), s)
      | inr e ↦ rw (e) (
        f.0,
        ground (
          arith,
          length-append current (separator current ++ p),
          length-append (separator current) p,
        ),
      )
    ]

Fits-add_parts :
    (n max : ℕ) (ps : List (List ℕ)) (b : Building)
    → max ≤ n
    → All (Short n) ps
    → Fits n b
    → Fits n (add_parts max ps b)
unfolding add_parts
Fits-add_parts n max [] b h s f = f
Fits-add_parts n max (p ∷ ps) b h s f =
    Fits-add_parts n max ps (add_part max p b) h s.1 (Fits-add_part n max p b h s.0 f)

Fits-add_lines :
    (n max : ℕ) (ls : List (List ℕ)) (b : Building)
    → max ≤ n
    → 4 ≤ n
    → Fits n b
    → Fits n (add_lines max ls b)
unfolding add_lines
Fits-add_lines n max [] b h k f = f
Fits-add_lines n max (l ∷ ls) b h k f =
    Fits-add_lines n max ls (add_parts max (split_utf8 l max) b) h k
      (Fits-add_parts n max (split_utf8 l max) b h (Short-split_utf8 n max l h k) f)

pub Short-split_oversized_block :
    (n max : ℕ) (block : List ℕ) → max ≤ n → 4 ≤ n → All (Short n) (split_oversized_block block max)
unfolding split_oversized_block
Short-split_oversized_block n max block h k =
    let lines = (split_lines block).0 ∷ (split_lines block).1 in
    let f = Fits-add_lines n max lines ([], []) h k (tt, omega arith) in
    elim (Bool-cases (leb (length block) max)) [
      | inl e ↦ rw (e) (ground arith, tt)
      | inr e ↦ rw (e) (
          All-append n (add_lines max lines ([], [])).0 (non_empty (add_lines max lines ([], [])).1)
            f.0 (Short-non_empty n (add_lines max lines ([], [])).1 f.1))
    ]
