-- ===== src/Prelude/Tables.antt =====
-- What SELECT, UPDATE, INSERT and DELETE do to the properties of rows: all of them, a unique key, the
-- presence of a key.
use Prim.Native.Nat.{ℕ}
use mathlib.Core.Path.{◌≡◌, refl, sym, ◌∙◌}
use mathlib.Core.Logic.{◌≢◌, inl, inr}
use mathlib.Core.Bool.{Bool, true, false, not, ◌&&◌}
use mathlib.Core.Option.{none}
use mathlib.Core.List.{List, [], ◌∷◌, ◌++◌}
use native.Mathlib.Omega.{arith}
use shiori_server.Prelude.Tests.{◌==◌, Bool-cases}
use shiori_server.Prelude.Lists.{All}
use shiori_server.Prelude.Rows.{select, amend, any, first, has, Keyed, has-append}

module _ {A : Type 0} where
  pub select-All : (test : A → Bool) (xs : List A) → All (λ x. test x ≡ true) (select test xs)
  select-All test [] = tt
  select-All test (x ∷ xs) = elim (Bool-cases (test x)) [
    | inl e ↦ rw e (e, select-All test xs)
    | inr e ↦ rw e (select-All test xs)
  ]

  pub select-both :
      (P : A → Type 0) (test : A → Bool) (xs : List A)
      → All P xs
      → All (λ x. P x × (test x ≡ true)) (select test xs)
  select-both P test [] h = tt
  select-both P test (x ∷ xs) h = elim (Bool-cases (test x)) [
    | inl e ↦ rw e ((h.0, e), select-both P test xs h.1)
    | inr e ↦ rw e (select-both P test xs h.1)
  ]

  pub select_All :
      (P : A → Type 0) (test : A → Bool) (xs : List A) → All P xs → All P (select test xs)
  select_All P test [] h = tt
  select_All P test (x ∷ xs) h = elim (Bool-cases (test x)) [
    | inl e ↦ rw e (h.0, select_All P test xs h.1)
    | inr e ↦ rw e (select_All P test xs h.1)
  ]

  pub All-map : (P Q : A → Type 0) (xs : List A) → ((x : A) → P x → Q x) → All P xs → All Q xs
  All-map P Q [] f h = tt
  All-map P Q (x ∷ xs) f h = (f x h.0, All-map P Q xs f h.1)

  pub append-All : (P : A → Type 0) (xs ys : List A) → All P xs → All P ys → All P (xs ++ ys)
  append-All P [] ys h k = k
  append-All P (x ∷ xs) ys h k = (h.0, append-All P xs ys h.1 k)

  pub amend-All :
      (P : A → Type 0) (test : A → Bool) (f : A → A) (xs : List A)
      → ((x : A) → test x ≡ true → P x → P (f x))
      → All P xs
      → All P (amend test f xs)
  amend-All P test f [] keep h = tt
  amend-All P test f (x ∷ xs) keep h = elim (Bool-cases (test x)) [
    | inl e ↦ rw e (keep x e h.0, amend-All P test f xs keep h.1)
    | inr e ↦ rw e (h.0, amend-All P test f xs keep h.1)
  ]

  pub any-false :
      (test : A → Bool) (xs : List A) → any test xs ≡ false → All (λ x. test x ≡ false) xs
  any-false test [] h = tt
  any-false test (x ∷ xs) h = elim (Bool-cases (test x)) [
    | inl e ↦ cc (h, e)
    | inr e ↦ (e, any-false test xs (ground (arith, h, e)))
  ]

  pub first-none : (test : A → Bool) (xs : List A) → first test xs ≡ none → any test xs ≡ false
  first-none test [] h = refl
  first-none test (x ∷ xs) h = elim (Bool-cases (test x)) [
    | inl e ↦ ground (arith, h, e)
    | inr e ↦ rw e (first-none test xs (ground (arith, h, e)))
  ]

module _ {A : Type 0} (key : A → ℕ) where
  pub Keyed-select : (test : A → Bool) (xs : List A) → Keyed key xs → Keyed key (select test xs)
  Keyed-select test [] h = tt
  Keyed-select test (x ∷ xs) h = elim (Bool-cases (test x)) [
    | inl e ↦ rw e (select_All (λ y. key y ≢ key x) test xs h.0, Keyed-select test xs h.1)
    | inr e ↦ rw e (Keyed-select test xs h.1)
  ]

  has-false : (k : ℕ) (xs : List A) → has key k xs ≡ false → All (λ y. key y ≢ k) xs
  has-false k [] h = tt
  has-false k (x ∷ xs) h = elim (Bool-cases (key x == k)) [
    | inl e ↦ cc (h, e)
    | inr e ↦ (ground (arith, e), has-false k xs (ground (arith, h, e)))
  ]

  -- A row with a new key.
  pub Keyed-append :
      (x : A) (xs : List A) → has key (key x) xs ≡ false → Keyed key xs → Keyed key (xs ++ x ∷ [])
  Keyed-append x [] new h = (tt, tt)
  Keyed-append x (y ∷ ys) new h =
      let apart = has-false (key x) (y ∷ ys) new in
      (
        append-All (λ z. key z ≢ key y) ys (x ∷ []) h.0 (λ e. apart.0 (sym e), tt),
        Keyed-append x ys (ground (arith, new, apart.0)) h.1,
      )

  -- A change of rows that leaves the key alone.
  module _ (test : A → Bool) (f : A → A) (same : (x : A) → test x ≡ true → key (f x) ≡ key x) where
    pub Keyed-amend : (xs : List A) → Keyed key xs → Keyed key (amend test f xs)
    Keyed-amend [] h = tt
    Keyed-amend (x ∷ xs) h =
        let rest = λ (k : ℕ) (n : All (λ y. key y ≢ k) xs).
          amend-All (λ y. key y ≢ k) test f xs (λ y e p. λ q. p (sym (same y e) ∙ q)) n in
        elim (Bool-cases (test x)) [
          | inl e ↦ rw (e, same x e) (rest (key x) h.0, Keyed-amend xs h.1)
          | inr e ↦ rw e (rest (key x) h.0, Keyed-amend xs h.1)
        ]

    pub has-amend : (k : ℕ) (xs : List A) → has key k (amend test f xs) ≡ has key k xs
    has-amend k [] = refl
    has-amend k (x ∷ xs) = elim (Bool-cases (test x)) [
      | inl e ↦ rw (e, same x e, has-amend k xs) refl
      | inr e ↦ rw (e, has-amend k xs) refl
    ]

  -- A key stays that some row has which is not deleted.
  pub has-other :
      (k i : ℕ) (xs : List A) → k ≢ i → has key k (select (λ x. not (key x == i)) xs) ≡ has key k xs
  has-other k i [] n = refl
  has-other k i (x ∷ xs) n = ground (arith, n, has-other k i xs n)

  pub has-grown : (k : ℕ) (xs ys : List A) → has key k xs ≡ true → has key k (xs ++ ys) ≡ true
  has-grown k xs ys h = ground (arith, has-append key k xs ys, h)

  pub has-kept :
      (test : A → Bool) (k : ℕ) (xs : List A)
      → has key k xs ≡ true
      → any (λ x. key x == k && test x) xs ≡ false
      → has key k (select (λ x. not (test x)) xs) ≡ true
  has-kept test k [] h n = h
  has-kept test k (x ∷ xs) h n = ground (arith, h, n, has-kept test k xs)

-- A unique key that is not a number.
module _ {A K : Type 0} (key : A → K) (same : K → K → Bool) where
  abbrev pub Unique : List A → Type 0
  Unique [] = Unit
  Unique (x ∷ xs) = All (λ y. same (key x) (key y) ≡ false) xs × Unique xs

  pub Unique-select : (test : A → Bool) (xs : List A) → Unique xs → Unique (select test xs)
  Unique-select test [] h = tt
  Unique-select test (x ∷ xs) h = elim (Bool-cases (test x)) [
    | inl e ↦
        rw e (select_All (λ y. same (key x) (key y) ≡ false) test xs h.0, Unique-select test xs h.1)
    | inr e ↦ rw e (Unique-select test xs h.1)
  ]

  pub Unique-append :
      (xs ys : List A)
      → All (λ y. All (λ x. same (key x) (key y) ≡ false) xs) ys
      → Unique xs
      → Unique ys
      → Unique (xs ++ ys)
  Unique-append [] ys new h k = k
  Unique-append (x ∷ xs) ys new h k =
      let first_apart =
        All-map (λ y. All (λ x. same (key x) (key y) ≡ false) (x ∷ xs))
          (λ y. same (key x) (key y) ≡ false) ys (λ y p. p.0) new in
      let rest_apart =
        All-map (λ y. All (λ x. same (key x) (key y) ≡ false) (x ∷ xs))
          (λ y. All (λ x. same (key x) (key y) ≡ false) xs) ys (λ y p. p.1) new in
      (
        append-All (λ y. same (key x) (key y) ≡ false) xs ys h.0 first_apart,
        Unique-append xs ys rest_apart h.1 k,
      )

  pub Unique-amend :
      (test : A → Bool) (f : A → A) (xs : List A)
      → ((x : A) → test x ≡ true → key (f x) ≡ key x)
      → Unique xs
      → Unique (amend test f xs)
  Unique-amend test f [] keep h = tt
  Unique-amend test f (x ∷ xs) keep h =
      let rest = λ (k : K) (n : All (λ y. same k (key y) ≡ false) xs).
        amend-All (λ y. same k (key y) ≡ false) test f xs (λ y e p. rw (keep y e) p) n in
      elim (Bool-cases (test x)) [
        | inl e ↦ rw (e, keep x e) (rest (key x) h.0, Unique-amend test f xs keep h.1)
        | inr e ↦ rw e (rest (key x) h.0, Unique-amend test f xs keep h.1)
      ]
