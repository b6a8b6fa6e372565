-- ===== src/Prelude/Bytes.antt =====
-- Texts whose characters the code looks at, as lists of bytes.
use Prim.Native.Nat.{ℕ}
use mathlib.Core.Path.{◌≡◌, refl}
use mathlib.Core.Bool.{Bool, true, false, ◌&&◌}
use mathlib.Core.List.{List, [], ◌∷◌}
use native.Mathlib.Omega.{arith}
use shiori_server.Prelude.Tests.{◌==◌}

-- Equality of texts that are lists of bytes.
abbrev pub same_bytes : List ℕ → List ℕ → Bool
same_bytes [] [] = true
same_bytes [] (y ∷ ys) = false
same_bytes (x ∷ xs) [] = false
same_bytes (x ∷ xs) (y ∷ ys) = x == y && same_bytes xs ys

pub same_bytes_refl : (s : List ℕ) → same_bytes s s ≡ true
same_bytes_refl [] = refl
same_bytes_refl (x ∷ xs) = ground (arith, same_bytes_refl xs)

pub same_bytes_eq : (s t : List ℕ) → same_bytes s t ≡ true → s ≡ t
same_bytes_eq [] [] h = refl
same_bytes_eq [] (y ∷ ys) h = cc h
same_bytes_eq (x ∷ xs) [] h = cc h
same_bytes_eq (x ∷ xs) (y ∷ ys) h =
    let rest : xs ≡ ys = same_bytes_eq xs ys (ground (arith, h)) in
    let here : x ≡ y = ground (arith, h) in cc (rest, here)
