-- ===== src/Storage/Safety.antt =====
-- internal/platform/storage/localfs/localfs.go: where the path of a key lies.
use shiori_server.Prelude.{
  ℕ, ◌≡◌, refl, sym, ap, ◌∙◌, String, Bool, true, false, ◌||◌, List, [], ◌∷◌, ◌++◌, append-nil,
  append_assoc, arith, ◌⊎◌, inl, inr, ◌==◌, if◌then◌else◌, All, Bool-cases,
}
use shiori_server.Storage.Interface.{ok, err}
use shiori_server.Storage.Paths.{
  starts_with_dot, has_dots, has_prefix, split, elements, is_here, is_parent, push, clean,
  below_root, render, join,
}
use shiori_server.Storage.Local.{without_slash, resolve}

-- An element of a clean path.
abbrev has_slash : List ℕ → Bool
has_slash [] = false
has_slash (b ∷ bs) = b == b'/' || has_slash bs

abbrev pub Plain : List ℕ → Type 0
Plain e = (has_slash e ≡ false) × (is_here e ≡ false) × (is_parent e ≡ false)

-- The elements of a key that are kept.
abbrev pub kept : List (List ℕ) → List (List ℕ)
kept [] = []
kept (e ∷ es) = let rest = kept es in if is_here e then rest else e ∷ rest

split-append :
    (e y : List ℕ) (z : List (List ℕ))
    → has_slash e ≡ false
    → split y ≡ ([], z)
    → split (e ++ y) ≡ (e, z)
split-append [] y z h s = s
split-append (b ∷ e) y z h s =
    let off : b == b'/' ≡ false = ground (arith, h) in
    rw (split-append e y z (ground (arith, h)) s, off) refl

split-below_root :
    (es : List (List ℕ)) (k : List ℕ)
    → All Plain es
    → split (below_root es ++ b'/' ∷ k) ≡ ([], es ++ elements k)
split-below_root [] k h = refl
split-below_root (e ∷ es) k h =
    let rest =
      split-append e (below_root es ++ b'/' ∷ k) (es ++ elements k) h.0.0
        (split-below_root es k h.1) in
    rw (append_assoc e (below_root es) (b'/' ∷ k), rest) refl

push-Plain : (out : List (List ℕ)) (e : List ℕ) → Plain e → push out e ≡ out ++ e ∷ []
push-Plain out e h = rw (h.1, h.2) refl

clean-append : (out es r : List (List ℕ)) → All Plain es → clean out (es ++ r) ≡ clean (out ++ es) r
clean-append out [] r h = ap (λ x. clean x r) (sym (append-nil out))
clean-append out (e ∷ es) r h =
    let pushed : clean out (e ∷ (es ++ r)) ≡ clean (out ++ e ∷ []) (es ++ r) =
      ap (λ o. clean o (es ++ r)) (push-Plain out e h.0) in
    pushed
    ∙ clean-append (out ++ e ∷ []) es r h.1
    ∙ ap (λ x. clean x r) (append_assoc out (e ∷ []) es)

clean-kept :
    (out es : List (List ℕ)) → All (λ e. is_parent e ≡ false) es → clean out es ≡ out ++ kept es
clean-kept out [] h = sym (append-nil out)
clean-kept out (e ∷ es) h = elim (Bool-cases (is_here e)) [
  | inl here ↦ rw here (clean-kept out es h.1)
  | inr there ↦
      rw (there, h.0) (clean-kept (out ++ e ∷ []) es h.1 ∙ append_assoc out (e ∷ []) (kept es))
]

-- No part of a text without two dots has two dots.
first_dot : (s : List ℕ) → starts_with_dot s ≡ false → starts_with_dot (split s).0 ≡ false
first_dot [] h = refl
first_dot (b ∷ bs) h = elim (Bool-cases (b == b'/')) [ inl e ↦ rw e refl | inr e ↦ rw (e, h) refl ]

split-has_dots :
    (s : List ℕ)
    → has_dots s ≡ false
    → (has_dots (split s).0 ≡ false) × All (λ e. has_dots e ≡ false) (split s).1
split-has_dots [] h = (refl, tt)
split-has_dots (b ∷ bs) h =
    let (x, xs) = split-has_dots bs (ground (arith, h)) in
    elim (Bool-cases (b == b'/')) [
      | inl e ↦ rw e (refl, (x, xs))
      | inr e ↦ elim (Bool-cases (starts_with_dot bs)) [
        | inl dot ↦ let no : b == b'.' ≡ false = ground (arith, h, dot) in rw (e, no) (x, xs)
        | inr plain ↦ rw (e, first_dot bs plain) (ground (arith, x), xs)
      ]
    ]

below_root-append : (es fs : List (List ℕ)) → below_root (es ++ fs) ≡ below_root es ++ below_root fs
below_root-append [] fs = refl
below_root-append (e ∷ es) fs =
    ap (λ x. b'/' ∷ x)
      (ap (λ x. e ++ x) (below_root-append es fs)
        ∙ sym (append_assoc e (below_root es) (below_root fs)))

has_prefix-append : (s t : List ℕ) → has_prefix (s ++ t) s ≡ true
has_prefix-append [] t = elim t [ [] ↦ refl | b ∷ bs ↦ refl ]
has_prefix-append (b ∷ s) t = ground (arith, has_prefix-append s t)

not_parent : (e : List ℕ) → has_dots e ≡ false → is_parent e ≡ false
not_parent [] h = refl
not_parent (a ∷ []) h = ground (arith, h)
not_parent (a ∷ b ∷ e) h = ground (arith, h)

no_parents :
    (es : List (List ℕ)) → All (λ e. has_dots e ≡ false) es → All (λ e. is_parent e ≡ false) es
no_parents [] h = tt
no_parents (e ∷ es) h = (not_parent e h.0, no_parents es h.1)

has_dots-without_slash : (k : List ℕ) → has_dots k ≡ false → has_dots (without_slash k) ≡ false
has_dots-without_slash [] h = refl
has_dots-without_slash (b ∷ bs) h = elim (Bool-cases (b == b'/')) [
  | inl e ↦ rw e (ground (arith, h))
  | inr e ↦ rw e h
]

-- The path of a key in the directory with the elements `e ∷ es`.
joined :
    (e : List ℕ) (es : List (List ℕ)) (k : List ℕ)
    → All Plain (e ∷ es)
    → has_dots k ≡ false
    → join (below_root (e ∷ es)) k ≡ below_root (e ∷ es) ++ below_root (kept (elements k))
joined e es k h straight =
    let parents = no_parents (elements k) (split-has_dots k straight) in
    let parts : elements (below_root (e ∷ es) ++ b'/' ∷ k) ≡ [] ∷ ((e ∷ es) ++ elements k) =
      ap (λ x. x.0 ∷ x.1) (split-below_root (e ∷ es) k h) in
    ap (λ x. render (clean [] x)) parts
    ∙ ap render (clean-append [] (e ∷ es) (elements k) h)
    ∙ ap render (clean-kept (e ∷ es) (elements k) parents)
    ∙ below_root-append (e ∷ es) (kept (elements k))

kept-Plain :
    (es : List (List ℕ))
    → All (λ e. (has_slash e ≡ false) × (is_parent e ≡ false)) es
    → All Plain (kept es)
kept-Plain [] h = tt
kept-Plain (e ∷ es) h = elim (Bool-cases (is_here e)) [
  | inl here ↦ rw here (kept-Plain es h.1)
  | inr there ↦ rw there ((h.0.0, there, h.0.1), kept-Plain es h.1)
]

split-has_slash :
    (s : List ℕ) → (has_slash (split s).0 ≡ false) × All (λ e. has_slash e ≡ false) (split s).1
split-has_slash [] = (refl, tt)
split-has_slash (b ∷ bs) =
    let (x, xs) = split-has_slash bs in
    elim (Bool-cases (b == b'/')) [ inl e ↦ rw e (refl, (x, xs)) | inr e ↦ rw (e, e) (x, xs) ]

both : (P Q : List ℕ → Type 0) (es : List (List ℕ)) → All P es → All Q es → All (λ e. P e × Q e) es
both P Q [] h k = tt
both P Q (e ∷ es) h k = ((h.0, k.0), both P Q es h.1 k.1)

-- In a directory whose path is absolute and clean and not the root, a key with two dots in a row is
-- an error; any other key resolves to the path of the directory followed by elements that are not
-- empty, hold no slash and are neither `.` nor `..`.
pub resolve_lem :
    (e : List ℕ) (es : List (List ℕ)) (k : List ℕ)
    → All Plain (e ∷ es)
    → ((has_dots k ≡ true) × ((x : String) × (resolve (below_root (e ∷ es)) k ≡ err x)))
      ⊎ ((has_dots k ≡ false)
          × ((fs : List (List ℕ)) × All Plain fs
              × (resolve (below_root (e ∷ es)) k ≡ ok (below_root (e ∷ es) ++ below_root fs))))
unfolding resolve
resolve_lem e es k h = elim (Bool-cases (has_dots k)) [
  | inl dots ↦ inl (dots, ("localfs: invalid key containing '..'", rw dots refl))
  | inr straight ↦
      let s = without_slash k in
      let straight' = has_dots-without_slash k straight in
      let fs = kept (elements s) in
      let plain =
        both (λ e. has_slash e ≡ false) (λ e. is_parent e ≡ false) (elements s) (split-has_slash s)
          (no_parents (elements s) (split-has_dots s straight')) in
      let base = below_root (e ∷ es) in
      let inside : has_prefix (join base s) base ≡ true =
        ap (λ x. has_prefix x base) (joined e es s h straight')
        ∙ has_prefix-append base (below_root fs) in
      inr (
        straight,
        (
          fs,
          kept-Plain (elements s) plain,
          rw (straight, inside) (ap (λ x. ok x) (joined e es s h straight')),
        ),
      )
]
