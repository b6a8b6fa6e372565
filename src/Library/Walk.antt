-- ===== src/Library/Walk.antt =====
-- internal/library/sqlite/features.go: the pages of a listing by key, put together.
use shiori_server.Prelude.{
  ℕ, zero, suc, ◌≤◌, ◌<◌, ◌≡◌, ◌≢◌, refl, Bool, true, false, some, List, [], ◌∷◌, arith, inl, inr,
  ltb, ◌==◌, if◌then◌else◌, Bool-cases, length, take, drop, All,
}
use shiori_server.Prelude.Rows.{select, place, order_by, row, Keyed}
use shiori_server.Prelude.Tables.{select_All, All-map}
use shiori_server.Library.Page.{last_key, descending}

module _ {A : Type 0} where
  pub select_all :
      (test : A → Bool) (xs : List A) → All (λ x. test x ≡ true) xs → select test xs ≡ xs
  select_all test [] h = refl
  select_all test (x ∷ xs) h = rw (h.0, select_all test xs h.1) refl

  pub select-select :
      (p q : A → Bool) (xs : List A)
      → ((x : A) → p x ≡ true → q x ≡ true)
      → select p (select q xs) ≡ select p xs
  select-select p q [] h = refl
  select-select p q (x ∷ xs) h = elim (Bool-cases (p x)) [
    | inl e ↦ rw (h x e, e, select-select p q xs h) refl
    | inr e ↦ elim (Bool-cases (q x)) [
      | inl f ↦ rw (f, e, select-select p q xs h) refl
      | inr f ↦ rw (f, e, select-select p q xs h) refl
    ]
  ]

  place-All :
      (P : A → Type 0) (before : A → A → Bool) (x : A) (xs : List A)
      → P x
      → All P xs
      → All P (place before x xs)
  place-All P before x [] h k = (h, tt)
  place-All P before x (y ∷ ys) h k = elim (Bool-cases (before y x)) [
    | inl e ↦ rw e (k.0, place-All P before x ys h k.1)
    | inr e ↦ rw e (h, k)
  ]

  order_by-All :
      (P : A → Type 0) (before : A → A → Bool) (xs : List A) → All P xs → All P (order_by before xs)
  order_by-All P before [] h = tt
  order_by-All P before (x ∷ xs) h =
      place-All P before x (order_by before xs) h.0 (order_by-All P before xs h.1)

module _ {A : Type 0} (key : A → ℕ) where
  -- Each key is below the ones before it.
  abbrev pub Falls : List A → Type 0
  Falls [] = Unit
  Falls (x ∷ xs) = All (λ y. key y < key x) xs × Falls xs

  place-Falls :
      (x : A) (xs : List A)
      → All (λ y. key y ≢ key x) xs
      → Falls xs
      → Falls (place (λ a b. ltb (key b) (key a)) x xs)
  place-Falls x [] n h = (tt, tt)
  place-Falls x (y ∷ ys) n h = elim (Bool-cases (ltb (key x) (key y))) [
    | inl e ↦ rw e (
      place-All (λ z. key z < key y) (λ a b. ltb (key b) (key a)) x ys (ground arith) h.0,
      place-Falls x ys n.1 h.1,
    )
    | inr e ↦
        let above : key y < key x = ground (arith, n.0) in
        rw e (
          (above, All-map (λ z. key z < key y) (λ z. key z < key x) ys (λ z l. omega arith) h.0),
          h,
        )
  ]

  pub descending-Falls : (xs : List A) → Keyed key xs → Falls (descending key xs)
  unfolding descending
  descending-Falls [] h = tt
  descending-Falls (x ∷ xs) h =
      place-Falls x (order_by (λ a b. ltb (key b) (key a)) xs)
        (order_by-All (λ y. key y ≢ key x) (λ a b. ltb (key b) (key a)) xs h.0)
        (descending-Falls xs h.1)

  place-row :
      (before : A → A → Bool) (x : A) (xs : List A) (i : ℕ)
      → All (λ y. key y ≢ key x) xs
      → row key i (place before x xs) ≡ (if key x == i then some x else row key i xs)
  place-row before x [] i n = refl
  place-row before x (y ∷ ys) i n = elim (Bool-cases (before y x)) [
    | inl e ↦ rw (e, place-row before x ys i n.1) (ground (arith, n.0))
    | inr e ↦ rw e refl
  ]

  pub row-descending :
      (xs : List A) (i : ℕ) → Keyed key xs → row key i (descending key xs) ≡ row key i xs
  unfolding descending
  row-descending [] i h = refl
  row-descending (x ∷ xs) i h =
      let before = λ (a b : A). ltb (key b) (key a) in
      rw
        (
          place-row before x (order_by before xs) i
              (order_by-All (λ y. key y ≢ key x) before xs h.0),
          row-descending xs i h.1,
        )
        refl

  place-length :
      (before : A → A → Bool) (x : A) (xs : List A) → length (place before x xs) ≡ suc (length xs)
  place-length before x [] = refl
  place-length before x (y ∷ ys) = elim (Bool-cases (before y x)) [
    | inl e ↦ rw (e, place-length before x ys) refl
    | inr e ↦ rw e refl
  ]

  pub length-descending : (xs : List A) → length (descending key xs) ≡ length xs
  unfolding descending
  length-descending [] = refl
  length-descending (x ∷ xs) =
      let before = λ (a b : A). ltb (key b) (key a) in
      rw (place-length before x (order_by before xs), length-descending xs) refl

  pub select-Falls : (test : A → Bool) (xs : List A) → Falls xs → Falls (select test xs)
  select-Falls test [] h = tt
  select-Falls test (x ∷ xs) h = elim (Bool-cases (test x)) [
    | inl e ↦ rw e (select_All (λ y. key y < key x) test xs h.0, select-Falls test xs h.1)
    | inr e ↦ rw e (select-Falls test xs h.1)
  ]

  pub last_key-take : (n : ℕ) (xs : List A) → last_key key n (take (suc n) xs) ≡ last_key key n xs
  last_key-take n [] = refl
  last_key-take zero (x ∷ xs) = refl
  last_key-take (suc zero) (x ∷ xs) = refl
  last_key-take (suc (suc n)) (x ∷ xs) = last_key-take (suc n) xs

  -- A page of `suc n` rows has a last one, and what is below its key is what follows the page.
  pub after_page :
      (n : ℕ) (xs : List A)
      → Falls xs
      → suc n ≤ length xs
      → (k : ℕ) × (last_key key (suc n) xs ≡ some k)
        × (select (λ x. ltb (key x) k) xs ≡ drop (suc n) xs)
        × ((P : ℕ → Type 0) → All (λ x. P (key x)) xs → P k)
  after_page n [] h l = absurd (omega (arith, l))
  after_page zero (x ∷ xs) h l =
      let self : ltb (key x) (key x) ≡ false = ground arith in
      (
        key x,
        refl,
        rw self (
            select_all (λ y. ltb (key y) (key x)) xs
              (All-map (λ y. key y < key x) (λ y. ltb (key y) (key x) ≡ true) xs
                (λ y m. ground (arith, m)) h.0)),
        λ P q. q.0,
      )
  after_page (suc n) (x ∷ xs) h l =
      let (k, last, rest, inside) = after_page n xs h.1 (omega (arith, l)) in
      let low : k < key x = inside (λ i. i < key x) h.0 in
      let out : ltb (key x) k ≡ false = ground (arith, low) in
      (k, last, rw out rest, λ P q. inside P q.1)
