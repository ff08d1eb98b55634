-- ===== src/Catalog/Ratings.antt =====
-- The running average of ratings. services/catalog/src/modules/product-reviews/product-reviews.service.ts
use native.Mathlib.Nat.{le-div_iff_mul-le, mul-le-mul_right}
use seapedia.Prelude.{ℕ, ◌+◌, ◌*◌, ◌/◌, ◌≤◌, ◌<◌, arith}
use seapedia.Catalog.Reviews.{add_to_average}

module _ (n d k : ℕ) (positive : 0 < d) where
  at_least : k * d ≤ n → k ≤ n / d
  at_least h = (le-div_iff_mul-le positive).1 h

  at_most : n < (k + 1) * d → n / d ≤ k
  at_most h = ground (arith, (le-div_iff_mul-le {k = d} {x = k + 1} {y = n} positive).0)

-- The new average lies between the old one and the new rating, both in hundredths, whatever the number of
-- ratings before.
pub add_to_average_between :
    (average count rating : ℕ)
    → (average ≤ 100 * rating
        → (average ≤ add_to_average average count rating)
          × (add_to_average average count rating ≤ 100 * rating))
      × (100 * rating ≤ average
          → (100 * rating ≤ add_to_average average count rating)
            × (add_to_average average count rating ≤ average))
unfolding add_to_average
add_to_average_between average count rating = (
  λ h.
      let m : average * count ≤ 100 * rating * count = mul-le-mul_right count h in
      (
        at_least top bottom average (omega arith) (omega arith),
        at_most top bottom (100 * rating) (omega arith) (omega arith),
      ),
  λ h.
      let m : 100 * rating * count ≤ average * count = mul-le-mul_right count h in
      (
        at_least top bottom (100 * rating) (omega arith) (omega arith),
        at_most top bottom average (omega arith) (omega arith),
      ),
)
  where
    top : ℕ
    top = 2 * (average * count + 100 * rating) + (count + 1)

    bottom : ℕ
    bottom = 2 * (count + 1)
