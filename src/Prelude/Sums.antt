-- ===== src/Prelude/Sums.antt =====
-- Sums over the rows of a table.
use Prim.Native.Nat.{ℕ, ◌+◌}
use mathlib.Core.Path.{◌≡◌}
use mathlib.Core.List.{List, [], ◌∷◌, ◌++◌}
use native.Mathlib.Omega.{arith}
use seapedia.Prelude.Ints.{ℤ, pos, ◌+ℤ◌, int_laws}

module _ {ℓ} {A : Type ℓ} where
  abbrev pub sum_by : (A → ℕ) → List A → ℕ
  sum_by f [] = 0
  sum_by f (x ∷ xs) = f x + sum_by f xs

  pub sum_by-append : (f : A → ℕ) (xs ys : List A) → sum_by f (xs ++ ys) ≡ sum_by f xs + sum_by f ys
  sum_by-append f [] ys = omega arith
  sum_by-append f (x ∷ xs) ys = omega (arith, sum_by-append f xs ys)

  abbrev pub total_by : (A → ℤ) → List A → ℤ
  total_by f [] = pos 0
  total_by f (x ∷ xs) = f x +ℤ total_by f xs

  pub total_by-append :
      (f : A → ℤ) (xs ys : List A) → total_by f (xs ++ ys) ≡ total_by f xs +ℤ total_by f ys
  total_by-append f [] ys = omega int_laws
  total_by-append f (x ∷ xs) ys = rw (total_by-append f xs ys) (omega int_laws)
