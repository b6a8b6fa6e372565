-- ===== src/Prelude/Rows.antt =====
-- Rows of a table: what WHERE, ORDER BY, UPDATE and the uniqueness of a key are on lists.
use Prim.Native.Nat.{ℕ}
use mathlib.Core.Path.{◌≡◌, refl}
use mathlib.Core.Logic.{◌≢◌}
use mathlib.Core.Bool.{Bool, false, ◌||◌}
use mathlib.Core.Option.{Option, none, some}
use mathlib.Core.List.{List, [], ◌∷◌, ◌++◌}
use native.Mathlib.Omega.{arith}
use shiori_server.Prelude.Tests.{◌==◌, if◌then◌else◌}
use shiori_server.Prelude.Lists.{All}

module _ {A : Type 0} where
  -- SELECT … WHERE test
  abbrev pub select : (A → Bool) → List A → List A
  select test [] = []
  select test (x ∷ xs) = let rest = select test xs in if test x then x ∷ rest else rest

  -- UPDATE … SET … WHERE test
  abbrev pub amend : (A → Bool) → (A → A) → List A → List A
  amend test f [] = []
  amend test f (x ∷ xs) = (if test x then f x else x) ∷ amend test f xs

  -- EXISTS (SELECT … WHERE test)
  abbrev pub any : (A → Bool) → List A → Bool
  any test [] = false
  any test (x ∷ xs) = test x || any test xs

  abbrev pub first : (A → Bool) → List A → Option A
  first test [] = none
  first test (x ∷ xs) = if test x then some x else first test xs

  -- ORDER BY, where `before a b` puts `a` in front; rows that it leaves equal keep their order.
  abbrev pub place : (A → A → Bool) → A → List A → List A
  place before x [] = x ∷ []
  place before x (y ∷ ys) =
      let rest = place before x ys in if before y x then y ∷ rest else x ∷ y ∷ ys

  abbrev pub order_by : (A → A → Bool) → List A → List A
  order_by before [] = []
  order_by before (x ∷ xs) = place before x (order_by before xs)

  module _ (key : A → ℕ) where
    abbrev pub has : ℕ → List A → Bool
    has k [] = false
    has k (x ∷ xs) = key x == k || has k xs

    -- The row of a key.
    abbrev pub row : ℕ → List A → Option A
    row k [] = none
    row k (x ∷ xs) = if key x == k then some x else row k xs

    -- PRIMARY KEY
    abbrev pub Keyed : List A → Type 0
    Keyed [] = Unit
    Keyed (x ∷ xs) = All (λ y. key y ≢ key x) xs × Keyed xs

    pub has-append : (k : ℕ) (xs ys : List A) → has k (xs ++ ys) ≡ (has k xs || has k ys)
    has-append k [] ys = refl
    has-append k (x ∷ xs) ys = ground (arith, has-append k xs ys)
