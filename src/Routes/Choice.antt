-- ===== src/Routes/Choice.antt =====
-- internal/jobs/unit_urls.go: the chosen template and the order of the map.
use shiori_server.Prelude.{
  ◌≡◌, refl, ap, ◌∙◌, Bool, true, false, not, ◌&&◌, Option, none, some, List, [], ◌∷◌, ◌++◌, arith,
  ◌⊎◌, inl, inr, eq_refl, eq_iff, All, Bool-cases,
}
use shiori_server.Routes.Template.{
  Template, is_better, same_rank, same_route, consider, best_of, unless_tied, select_template,
}

best_of-append :
    (xs ys : List Template) (s : Option (Template × Bool))
    → best_of (xs ++ ys) s ≡ best_of ys (best_of xs s)
unfolding best_of
best_of-append [] ys s = refl
best_of-append (x ∷ xs) ys s = best_of-append xs ys (consider x s)

-- A state whose best template is below `t`.
abbrev Below : Template → Option (Template × Bool) → Type 0
Below t none = Unit
Below t (some (b, tied)) = is_better t b ≡ true

consider-Below :
    (t c : Template) (s : Option (Template × Bool))
    → is_better t c ≡ true
    → Below t s
    → Below t (consider c s)
consider-Below t c none h k = h
consider-Below t c (some (b, tied)) h k = elim (Bool-cases (is_better c b)) [
  | inl up ↦ rw up h
  | inr down ↦ elim (Bool-cases (same_rank c b && not (same_route c b))) [
    | inl tie ↦ rw (down, tie) k
    | inr no_tie ↦ rw (down, no_tie) k
  ]
]

best_of-Below :
    (t : Template) (xs : List Template) (s : Option (Template × Bool))
    → All (λ c. is_better t c ≡ true) xs
    → Below t s
    → Below t (best_of xs s)
unfolding best_of
best_of-Below t [] s h k = k
best_of-Below t (x ∷ xs) s h k = best_of-Below t xs (consider x s) h.1 (consider-Below t x s h.0 k)

consider-best :
    (t : Template) (s : Option (Template × Bool)) → Below t s → consider t s ≡ some (t, false)
consider-best t none h = refl
consider-best t (some (b, tied)) h = rw h refl

below_rank :
    (t c : Template) → is_better t c ≡ true → (is_better c t ≡ false) × (same_rank c t ≡ false)
unfolding is_better same_rank
below_rank t c h = (ground (arith, h), ground (arith, h))

best_of-best :
    (t : Template) (ys : List Template)
    → All (λ c. is_better t c ≡ true) ys
    → best_of ys (some (t, false)) ≡ some (t, false)
unfolding best_of
best_of-best t [] h = refl
best_of-best t (y ∷ ys) h =
    let (low, apart) = below_rank t y h.0 in rw (low, apart) (best_of-best t ys h.1)

-- A state whose best template has the rank of `t`, and is tied or has its route.
abbrev Tops : Template → Bool → Option (Template × Bool) → Type 0
Tops t strict none = ⊥
Tops t strict (some (b, tied)) =
    (same_rank b t ≡ true) × ((tied ≡ true) ⊎ ((strict ≡ false) × (same_route b t ≡ true)))

level_rank :
    (t b c : Template) → same_rank b t ≡ true → is_better c t ≡ false → is_better c b ≡ false
unfolding is_better same_rank
level_rank t b c h k = ground (arith, h, k)

consider-Tops :
    (t c : Template) (strict : Bool) (s : Option (Template × Bool))
    → is_better c t ≡ false
    → Tops t strict s
    → Tops t strict (consider c s)
consider-Tops t c strict none h k = absurd k
consider-Tops t c strict (some (b, tied)) h k =
    let low = level_rank t b c k.0 h in
    elim (Bool-cases (same_rank c b && not (same_route c b))) [
      | inl tie ↦ rw (low, tie) (k.0, inl refl)
      | inr no_tie ↦ rw (low, no_tie) k
    ]

best_of-Tops :
    (t : Template) (strict : Bool) (xs : List Template) (s : Option (Template × Bool))
    → All (λ c. is_better c t ≡ false) xs
    → Tops t strict s
    → Tops t strict (best_of xs s)
unfolding best_of
best_of-Tops t strict [] s h k = k
best_of-Tops t strict (x ∷ xs) s h k =
    best_of-Tops t strict xs (consider x s) h.1 (consider-Tops t x strict s h.0 k)

-- A state whose best template is not above `t`.
abbrev Level : Template → Option (Template × Bool) → Type 0
Level t none = Unit
Level t (some (b, tied)) = is_better b t ≡ false

consider-Level :
    (t c : Template) (s : Option (Template × Bool))
    → is_better c t ≡ false
    → Level t s
    → Level t (consider c s)
consider-Level t c none h k = h
consider-Level t c (some (b, tied)) h k = elim (Bool-cases (is_better c b)) [
  | inl up ↦ rw up h
  | inr down ↦ elim (Bool-cases (same_rank c b && not (same_route c b))) [
    | inl tie ↦ rw (down, tie) k
    | inr no_tie ↦ rw (down, no_tie) k
  ]
]

best_of-Level :
    (t : Template) (xs : List Template) (s : Option (Template × Bool))
    → All (λ c. is_better c t ≡ false) xs
    → Level t s
    → Level t (best_of xs s)
unfolding best_of
best_of-Level t [] s h k = k
best_of-Level t (x ∷ xs) s h k = best_of-Level t xs (consider x s) h.1 (consider-Level t x s h.0 k)

rank_refl : (t : Template) → same_rank t t ≡ true
unfolding same_rank
rank_refl t = ground arith

route_refl : (t : Template) → same_route t t ≡ true
unfolding same_route
route_refl t = ground (arith, eq_refl t.prefix, eq_refl t.suffix)

route_sym : (a b : Template) → same_route a b ≡ true → same_route b a ≡ true
unfolding same_route
route_sym a b h = ground (
  arith,
  h,
  eq_iff a.prefix b.prefix,
  eq_iff a.suffix b.suffix,
  eq_iff b.prefix a.prefix,
  eq_iff b.suffix a.suffix,
)

route_trans :
    (a b c : Template) → same_route a b ≡ true → same_route b c ≡ true → same_route a c ≡ true
unfolding same_route
route_trans a b c h k = ground (
  arith,
  h,
  k,
  eq_iff a.prefix b.prefix,
  eq_iff a.suffix b.suffix,
  eq_iff b.prefix c.prefix,
  eq_iff b.suffix c.suffix,
  eq_iff a.prefix c.prefix,
  eq_iff a.suffix c.suffix,
)

equal_rank : (a b : Template) → is_better a b ≡ false → is_better b a ≡ false → same_rank a b ≡ true
unfolding is_better same_rank
equal_rank a b h k = ground (arith, h, k)

rank_join : (a b t : Template) → same_rank a t ≡ true → same_rank b t ≡ true → same_rank a b ≡ true
unfolding same_rank
rank_join a b t h k = ground (arith, h, k)

rank_level : (a t : Template) → same_rank a t ≡ true → is_better a t ≡ false
unfolding is_better same_rank
rank_level a t h = ground (arith, h)

consider-first :
    (t : Template) (s : Option (Template × Bool)) → Level t s → Tops t false (consider t s)
consider-first t none h = (rank_refl t, inr (refl, route_refl t))
consider-first t (some (b, tied)) h = elim (Bool-cases (is_better t b)) [
  | inl up ↦ rw up (rank_refl t, inr (refl, route_refl t))
  | inr down ↦
      let level : same_rank b t ≡ true = equal_rank b t h down in
      let level' : same_rank t b ≡ true = equal_rank t b down h in
      elim (Bool-cases (same_route t b)) [
        | inl same ↦
            let no_tie : (same_rank t b && not (same_route t b)) ≡ false = rw (level', same) refl in
            rw (down, no_tie) (level, inr (refl, route_sym t b same))
        | inr other ↦
            let tie : (same_rank t b && not (same_route t b)) ≡ true = rw (level', other) refl in
            rw (down, tie) (level, inl refl)
      ]
]

consider-second :
    (t u : Template) (s : Option (Template × Bool))
    → same_rank u t ≡ true
    → same_route u t ≡ false
    → Tops t false s
    → Tops t true (consider u s)
consider-second t u none r n k = absurd k
consider-second t u (some (b, tied)) r n k =
    let down : is_better u b ≡ false = level_rank t b u k.0 (rank_level u t r) in
    let level : same_rank u b ≡ true = rank_join u b t r k.0 in
    elim (Bool-cases (same_route u b)) [
      | inr other ↦
          let tie : (same_rank u b && not (same_route u b)) ≡ true = rw (level, other) refl in
          rw (down, tie) (k.0, inl refl)
      | inl same ↦
          let no_tie : (same_rank u b && not (same_route u b)) ≡ false = rw (level, same) refl in
          elim k.1 [
            | inl e ↦ rw (down, no_tie) (k.0, inl e)
            | inr e ↦
                let clash : same_route u t ≡ true = route_trans u b t same e.1 in cc (clash, n)
          ]
    ]

strict-none : (t : Template) (s : Option (Template × Bool)) → Tops t true s → unless_tied s ≡ none
strict-none t none h = absurd h
strict-none t (some (b, true)) h = refl
strict-none t (some (b, false)) h = elim h.1 [ inl e ↦ cc e | inr e ↦ cc e.0 ]

-- The choice does not depend on the order of the map: a template that is better than every other one
-- is chosen, wherever it stands.
pub select_template-best :
    (xs ys : List Template) (t : Template)
    → All (λ c. is_better t c ≡ true) xs
    → All (λ c. is_better t c ≡ true) ys
    → select_template (xs ++ t ∷ ys) ≡ some t
unfolding select_template best_of
select_template-best xs ys t h k =
    let turn : consider t (best_of xs none) ≡ some (t, false) =
      consider-best t (best_of xs none) (best_of-Below t xs none h tt) in
    ap unless_tied
      (best_of-append xs (t ∷ ys) none ∙ ap (λ s. best_of ys s) turn ∙ best_of-best t ys k)

-- Where two templates of one rank and of different routes stand anywhere among templates that are no
-- better, none is chosen.
pub select_template-tie :
    (xs ys zs : List Template) (t u : Template)
    → All (λ c. is_better c t ≡ false) xs
    → All (λ c. is_better c t ≡ false) ys
    → All (λ c. is_better c t ≡ false) zs
    → same_rank u t ≡ true
    → same_route u t ≡ false
    → select_template (xs ++ t ∷ (ys ++ u ∷ zs)) ≡ none
unfolding select_template best_of
select_template-tie xs ys zs t u h k l r n =
    let first = consider-first t (best_of xs none) (best_of-Level t xs none h tt) in
    let between = best_of-Tops t false ys (consider t (best_of xs none)) k first in
    let second = consider-second t u (best_of ys (consider t (best_of xs none))) r n between in
    let end =
      best_of-Tops t true zs (consider u (best_of ys (consider t (best_of xs none)))) l second in
    ap unless_tied (
      best_of-append xs (t ∷ (ys ++ u ∷ zs)) none
      ∙ best_of-append ys (u ∷ zs) (consider t (best_of xs none)))
    ∙ strict-none t _ end
