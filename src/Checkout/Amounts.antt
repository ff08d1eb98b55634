-- ===== src/Checkout/Amounts.antt =====
-- The amounts of `calculateTotals`.
use seapedia.Prelude.{ℕ, ◌+◌, ◌-◌, ◌*◌, ◌≤◌, ◌<◌, arith}
use seapedia.Db.{DeliveryMethod}
use seapedia.Checkout.Totals.{Fees, fee_of, ppn_of, calculate_totals}

-- The tax is the whole rupiah nearest to twelve hundredths of the base, and never half way.
pub ppn_nearest :
    (base : ℕ) → (ppn_of base * 100 < base * 12 + 50) × (base * 12 < ppn_of base * 100 + 50)
unfolding ppn_of
ppn_nearest base = omega arith

ppn_of_mono : (a b : ℕ) → a ≤ b → ppn_of a ≤ ppn_of b
unfolding ppn_of
ppn_of_mono a b h = omega arith

-- A larger subtotal and a smaller discount never lower the total, and the discount takes off no more
-- than the subtotal: the fee and its tax are always paid.
pub total_mono :
    (fees : Fees) (m : DeliveryMethod) (s s' off off' : ℕ)
    → s ≤ s'
    → off' ≤ off
    → let low = calculate_totals fees s m off in
      let high = calculate_totals fees s' m off' in
      (low.total_amount ≤ high.total_amount)
      × (low.ppn ≤ high.ppn)
      × (fee_of fees m + ppn_of (fee_of fees m) ≤ low.total_amount)
unfolding calculate_totals
total_mono fees m s s' off off' hs ho =
    let fee = fee_of fees m in
    let p = ppn_of_mono (s - off + fee) (s' - off' + fee) (omega arith) in
    let q = ppn_of_mono fee (s - off + fee) (omega arith) in omega arith
