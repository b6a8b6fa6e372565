-- ===== src/Library/Http/Names.antt =====
-- internal/library/http.go: the names of collections, which are trimmed with strings.TrimSpace before
-- they are tested and stored.
use shiori_server.Prelude.{
  ℕ, zero, suc, ◌≡◌, refl, ◌∙◌, ap, false, Option, none, some, List, [], ◌∷◌, ◌++◌, append-nil,
}
use shiori_server.Chunker.Text.{trim_space, trim_after, reverse_onto, space_tail, space_tail_back}
use shiori_server.Library.Http.Media.{is_blank_key}

-- A name that is not empty and does not end in white space, so that it is not white space only.
abbrev pub IsNamed : List ℕ → Type 0
IsNamed name = (is_blank_key name ≡ false) × (space_tail_back (reverse_onto [] name) ≡ none)

reverse_onto-reverse_onto :
    (a b s : List ℕ) → reverse_onto a (reverse_onto b s) ≡ reverse_onto (s ++ a) b
unfolding reverse_onto
reverse_onto-reverse_onto a b [] = refl
reverse_onto-reverse_onto a b (c ∷ cs) = reverse_onto-reverse_onto a (c ∷ b) cs

reverse_onto-nil : (t : List ℕ) → reverse_onto t [] ≡ t
unfolding reverse_onto
reverse_onto-nil t = refl

no_text : space_tail_back [] ≡ none
unfolding space_tail_back
no_text = refl

trim_after_lem :
    (space : List ℕ → Option ℕ) (k : ℕ) (s : List ℕ)
    → space [] ≡ none
    → space (trim_after space k s) ≡ none
unfolding trim_after
trim_after_lem space k [] h = h
trim_after_lem space (suc k) (c ∷ cs) h = trim_after_lem space k cs h
trim_after_lem space zero (c ∷ cs) h = go (space (c ∷ cs)) refl (λ k. trim_after_lem space k cs h)
  where
    go :
        (o : Option ℕ)
        → space (c ∷ cs) ≡ o
        → ((k : ℕ) → space (trim_after space k cs) ≡ none)
        → space (elim o [ none ↦ c ∷ cs | some k ↦ trim_after space k cs ]) ≡ none
    go none e later = e
    go (some k) e later = later k

-- strings.TrimSpace leaves no white space at the end.
pub trim_space-IsNamed : (s : List ℕ) → is_blank_key (trim_space s) ≡ false → IsNamed (trim_space s)
unfolding trim_space
trim_space-IsNamed s h =
    let text = reverse_onto [] (trim_after space_tail zero s) in
    let kept = trim_after space_tail_back zero text in
    let back : reverse_onto [] (reverse_onto [] kept) ≡ kept =
      reverse_onto-reverse_onto [] [] kept ∙ reverse_onto-nil (kept ++ []) ∙ append-nil kept in
    (h, ap space_tail_back back ∙ trim_after_lem space_tail_back zero text no_text)
