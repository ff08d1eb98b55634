-- ===== src/Checkout/Totals.antt =====
-- `calculateTotals`, over the fees of services/commerce/src/config.ts.
use seapedia.Prelude.{ℕ, ◌+◌, ◌-◌, ◌*◌, ◌/◌}
use seapedia.Db.{DeliveryMethod, instant, next_day, regular, other}

pub record Fees : Type 0 where
  pub instant_fee : ℕ
  pub next_day_fee : ℕ
  pub regular_fee : ℕ

-- `fees[deliveryMethod] ?? 0`
unfoldable pub fee_of : Fees → DeliveryMethod → ℕ
fee_of fees instant = fees.instant_fee
fee_of fees next_day = fees.next_day_fee
fee_of fees regular = fees.regular_fee
fee_of fees (other _) = 0

pub record Totals : Type 0 where
  pub delivery_fee : ℕ
  pub tax_base : ℕ
  pub ppn : ℕ
  pub total_amount : ℕ
  pub discounted_subtotal : ℕ

-- `Math.round(taxBase * 0.12)`. The product is never half way between two integers, so this is the
-- nearest integer to twelve hundredths.
unfoldable pub ppn_of : ℕ → ℕ
ppn_of base = (base * 12 + 50) / 100

-- `Math.max(0, subtotal - discountAmount)` is the subtraction that stops at 0.
unfoldable pub calculate_totals : Fees → ℕ → DeliveryMethod → ℕ → Totals
unfolding fee_of ppn_of
calculate_totals fees subtotal method discount =
    let fee = fee_of fees method in
    let discounted = subtotal - discount in
    let base = discounted + fee in
    let tax = ppn_of base in
    record {
      delivery_fee = fee;
      tax_base = base;
      ppn = tax;
      total_amount = base + tax;
      discounted_subtotal = discounted;
    }
