-- ===== src/Prelude/Map.antt =====
-- A Go map with string keys as an association list: reads, writes, deletions and a filtered range.
use Prim.Native.String.{String}
use mathlib.Core.Path.{◌≡◌, refl}
use mathlib.Core.Bool.{Bool}
use mathlib.Core.Option.{Option, none, some}
use mathlib.Core.List.{List, [], ◌∷◌}
use native.Mathlib.Omega.{arith}
use text.Mathlib.Text.{◌==◌ as str_eq}
use text.Mathlib.TextEquality.{eq_iff}
use shiori_server.Prelude.Tests.{if◌then◌else◌}

module _ {V : Type 0} where
  abbrev pub find : String → List (String × V) → Option V
  find k [] = none
  find k ((j, v) ∷ m) = if str_eq j k then some v else find k m

  abbrev pub put : String → V → List (String × V) → List (String × V)
  put k v [] = (k, v) ∷ []
  put k v ((j, w) ∷ m) = if str_eq j k then (k, v) ∷ m else (j, w) ∷ put k v m

  abbrev pub delete : String → List (String × V) → List (String × V)
  delete k [] = []
  delete k ((j, w) ∷ m) = let rest = delete k m in if str_eq j k then rest else (j, w) ∷ rest

  -- for k, v := range m { if !test(k, v) { delete(m, k) } }
  abbrev pub keep_if : (String → V → Bool) → List (String × V) → List (String × V)
  keep_if test [] = []
  keep_if test ((j, w) ∷ m) =
      let rest = keep_if test m in if test j w then (j, w) ∷ rest else delete j rest

  abbrev pub only_if : (V → Bool) → Option V → Option V
  only_if test none = none
  only_if test (some v) = if test v then some v else none

  pub find-put :
      (k j : String) (v : V) (m : List (String × V))
      → find j (put k v m) ≡ (if str_eq k j then some v else find j m)
  find-put k j v [] = refl
  find-put k j v ((i, w) ∷ m) = ground (arith, eq_iff k j, eq_iff i k, eq_iff i j, find-put k j v m)

  pub find-delete :
      (k j : String) (m : List (String × V))
      → find j (delete k m) ≡ (if str_eq k j then none else find j m)
  find-delete k j [] = ground arith
  find-delete k j ((i, w) ∷ m) =
      ground (arith, eq_iff k j, eq_iff i k, eq_iff i j, find-delete k j m)

  pub find-keep_if :
      (test : String → V → Bool) (j : String) (m : List (String × V))
      → find j (keep_if test m) ≡ only_if (test j) (find j m)
  find-keep_if test j [] = refl
  find-keep_if test j ((i, w) ∷ m) =
      ground (arith, eq_iff i j, find-keep_if test j m, find-delete i j (keep_if test m))
