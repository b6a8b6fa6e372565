-- ===== src/Chunker/Pieces.antt =====
-- internal/extraction/nuextract/chunker.go: splitUTF8 and splitOversizedBlock lose no text.
use shiori_server.Prelude.{
  ℕ, zero, suc, ◌+◌, ◌≤◌, ◌≡◌, refl, sym, ap, ◌∙◌, List, [], ◌∷◌, ◌++◌, append-nil, append_assoc,
  arith, inl, inr, ltb, leb, ◌==◌, if◌then◌else◌, Bool-cases, length, drop, concat, take-drop,
  length-drop,
}
use shiori_server.Chunker.Text.{rune_size, split_lines}
use shiori_server.Chunker.Split.{
  cut_of, non_empty, split_loop, split_utf8, Building, separator, add_part, add_parts, add_lines,
  split_oversized_block,
}

pub rune_size_lem : (b : ℕ) (v : List ℕ) → (1 ≤ rune_size (b ∷ v)) × (rune_size (b ∷ v) ≤ 4)
unfolding rune_size
rune_size_lem b v = ground arith

cut_of_positive : (max b : ℕ) (v : List ℕ) → 1 ≤ cut_of max (b ∷ v)
unfolding cut_of
cut_of_positive max b v = ground (arith, rune_size_lem b v)

concat-non_empty : (v : List ℕ) → concat (non_empty v) ≡ v
concat-non_empty [] = refl
concat-non_empty (b ∷ v) = append-nil (b ∷ v)

concat-split_loop :
    (fuel max : ℕ) (v : List ℕ) → length v ≤ fuel → concat (split_loop fuel max v) ≡ v
unfolding split_loop
concat-split_loop zero max [] h = ground (arith, concat-non_empty [])
concat-split_loop zero max (b ∷ v) h = let no : 1 ≤ 0 = omega (arith, h) in ground (arith, no)
concat-split_loop (suc n) max [] h = ground (arith, concat-non_empty [])
concat-split_loop (suc n) max (b ∷ v) h =
    let c = cut_of max (b ∷ v) in
    let small : length (drop c (b ∷ v)) ≤ n =
      omega (arith, length-drop c (b ∷ v), cut_of_positive max b v) in
    elim (Bool-cases (ltb max (length (b ∷ v)))) [
      | inl e ↦ rw (e, concat-split_loop n max (drop c (b ∷ v)) small, take-drop c (b ∷ v)) refl
      | inr e ↦ rw (e) (concat-non_empty (b ∷ v))
    ]

pub concat-split_utf8 : (v : List ℕ) (max : ℕ) → concat (split_utf8 v max) ≡ v
unfolding split_utf8
concat-split_utf8 v max = elim (Bool-cases (leb (length v) max)) [
  | inl e ↦ rw (e) (append-nil v)
  | inr e ↦ rw (e) (concat-split_loop (length v) max v (omega arith))
]

-- The text without its line ends.
abbrev pub letters : List ℕ → List ℕ
letters [] = []
letters (c ∷ cs) = if c == 10 then letters cs else c ∷ letters cs

letters-append : (s t : List ℕ) → letters (s ++ t) ≡ letters s ++ letters t
letters-append [] t = refl
letters-append (c ∷ s) t = ground (arith, letters-append s t)

concat-append : (a b : List (List ℕ)) → concat (a ++ b) ≡ concat a ++ concat b
concat-append [] b = refl
concat-append (l ∷ a) b =
    ap (λ w. l ++ w) (concat-append a b) ∙ sym (append_assoc l (concat a) (concat b))

-- All the text that a splitting has taken up.
abbrev text_of : Building → List ℕ
text_of b = letters (concat b.0) ++ letters b.1

letters-separator : (c : List ℕ) → letters (separator c) ≡ []
letters-separator [] = refl
letters-separator (b ∷ c) = ground arith

text_of-add_part :
    (max : ℕ) (p : List ℕ) (b : Building) → text_of (add_part max p b) ≡ text_of b ++ letters p
unfolding add_part
text_of-add_part max p (parts, current) =
    elim (Bool-cases (ltb max (length current + length (separator current) + length p))) [
      | inl e ↦
          rw
            (
              e,
              concat-append parts (current ∷ []),
              append-nil current,
              letters-append (concat parts) current,
            )
            refl
      | inr e ↦
          rw
            (
              e,
              letters-append current (separator current ++ p),
              letters-append (separator current) p,
              letters-separator current,
            )
            (sym (append_assoc (letters (concat parts)) (letters current) (letters p)))
    ]

text_of-add_parts :
    (max : ℕ) (ps : List (List ℕ)) (b : Building)
    → text_of (add_parts max ps b) ≡ text_of b ++ letters (concat ps)
unfolding add_parts
text_of-add_parts max [] b = sym (append-nil (text_of b))
text_of-add_parts max (p ∷ ps) b =
    text_of-add_parts max ps (add_part max p b)
    ∙ (rw (text_of-add_part max p b, letters-append p (concat ps))
        (append_assoc (text_of b) (letters p) (letters (concat ps))))

text_of-add_lines :
    (max : ℕ) (ls : List (List ℕ)) (b : Building)
    → text_of (add_lines max ls b) ≡ text_of b ++ letters (concat ls)
unfolding add_lines
text_of-add_lines max [] b = sym (append-nil (text_of b))
text_of-add_lines max (l ∷ ls) b =
    text_of-add_lines max ls (add_parts max (split_utf8 l max) b)
    ∙ (rw
        (
          text_of-add_parts max (split_utf8 l max) b,
          concat-split_utf8 l max,
          letters-append l (concat ls),
        )
        (append_assoc (text_of b) (letters l) (letters (concat ls))))

letters-split_lines :
    (s : List ℕ) → letters ((split_lines s).0 ++ concat (split_lines s).1) ≡ letters s
unfolding split_lines
letters-split_lines [] = refl
letters-split_lines (c ∷ s) = ground (arith, letters-split_lines s)

-- Splitting a block loses only line ends: the parts, put together, have the block's other bytes in
-- the block's order, whatever the limit is.
pub letters-split_oversized_block :
    (block : List ℕ) (max : ℕ) → letters (concat (split_oversized_block block max)) ≡ letters block
unfolding split_oversized_block
letters-split_oversized_block block max =
    let lines = (split_lines block).0 ∷ (split_lines block).1 in
    let b = add_lines max lines ([], []) in
    elim (Bool-cases (leb (length block) max)) [
      | inl e ↦ rw (e, append-nil block) refl
      | inr e ↦
          rw
            (
              e,
              concat-append b.0 (non_empty b.1),
              concat-non_empty b.1,
              letters-append (concat b.0) b.1,
            )
            (text_of-add_lines max lines ([], []) ∙ letters-split_lines block)
    ]
