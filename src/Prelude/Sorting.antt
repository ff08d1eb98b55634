-- ===== src/Prelude/Sorting.antt =====
-- A stable sort, for `order by` and `Array.prototype.sort`, and what it leaves unchanged.
use Prim.Native.Nat.{ℕ, ◌+◌}
use mathlib.Core.Path.{◌≡◌, refl}
use mathlib.Core.Bool.{Bool}
use mathlib.Core.Logic.{inl, inr}
use mathlib.Core.List.{List, [], ◌∷◌}
use native.Mathlib.Omega.{arith}
use seapedia.Prelude.Tests.{if◌then◌else◌, Bool-cases}
use seapedia.Prelude.Lists.{All}
use seapedia.Prelude.Sums.{sum_by}

module _ {ℓ} {A : Type ℓ} where
  -- `before x y`: `x` may stand in front of `y`.
  abbrev pub insert_by : (A → A → Bool) → A → List A → List A
  insert_by before x [] = x ∷ []
  insert_by before x (y ∷ ys) =
      let later = insert_by before x ys in if before x y then x ∷ y ∷ ys else y ∷ later

  abbrev pub sort_by : (A → A → Bool) → List A → List A
  sort_by before [] = []
  sort_by before (x ∷ xs) = insert_by before x (sort_by before xs)

  sum_by-insert_by :
      (before : A → A → Bool) (f : A → ℕ) (x : A) (xs : List A)
      → sum_by f (insert_by before x xs) ≡ f x + sum_by f xs
  sum_by-insert_by before f x [] = refl
  sum_by-insert_by before f x (y ∷ ys) = elim (Bool-cases (before x y)) [
    | inl e ↦ rw e
    | inr e ↦ rw e (omega (arith, sum_by-insert_by before f x ys))
  ]

  pub sum_by-sort_by :
      (before : A → A → Bool) (f : A → ℕ) (xs : List A) → sum_by f (sort_by before xs) ≡ sum_by f xs
  sum_by-sort_by before f [] = refl
  sum_by-sort_by before f (x ∷ xs) =
      omega (arith, sum_by-insert_by before f x (sort_by before xs), sum_by-sort_by before f xs)

  pub All-insert_by {κ} :
      (P : A → Type κ) (before : A → A → Bool) (x : A) (xs : List A)
      → P x
      → All P xs
      → All P (insert_by before x xs)
  All-insert_by P before x [] p _ = (p, tt)
  All-insert_by P before x (y ∷ ys) p (q, qs) = elim (Bool-cases (before x y)) [
    | inl e ↦ rw e (p, (q, qs))
    | inr e ↦ rw e (q, All-insert_by P before x ys p qs)
  ]

  pub All-sort_by {κ} :
      (P : A → Type κ) (before : A → A → Bool) (xs : List A) → All P xs → All P (sort_by before xs)
  All-sort_by P before [] _ = tt
  All-sort_by P before (x ∷ xs) (p, ps) =
      All-insert_by P before x (sort_by before xs) p (All-sort_by P before xs ps)
