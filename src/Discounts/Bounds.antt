-- ===== src/Discounts/Bounds.antt =====
-- What a granted discount promises.
use seapedia.Prelude.{ℕ, ◌*◌, ◌≤◌, ◌<◌, ◌≡◌, Option, none, some, arith, find}
use seapedia.Db.{Voucher, Promo, voucher, promo, Code, Db, OnOk, Env}
use seapedia.Discounts.{
  DiscountResult, has_code, promo_has_code, use_voucher, use_promo, voucher_result, promo_result,
  validate_found, validate_code,
}
use seapedia.Discounts.Codes.{normalize}

-- A granted voucher is in time, not used up, and its minimum is met.
pub record IsVoucherGrant (env : Env) (n : ℕ) (r : DiscountResult) (v : Voucher) : Type 0 where
  pub named : r.id ≡ v.id
  pub kind_of : r.kind ≡ voucher
  pub in_time : env.now ≤ v.expires_at
  pub left : 0 < v.remaining_usage
  pub minimum : v.min_order_amount ≤ n
  pub amount : r.discount_amount ≤ v.discount_amount

pub record IsPromoGrant (env : Env) (n : ℕ) (r : DiscountResult) (p : Promo) : Type 0 where
  pub named : r.id ≡ p.id
  pub kind_of : r.kind ≡ promo
  pub in_time : env.now ≤ p.expires_at
  pub minimum : p.min_order_amount ≤ n
  pub amount : r.discount_amount * 100 ≤ n * p.discount_percent
  pub cap : (m : ℕ) → p.max_discount_amount ≡ some m → r.discount_amount ≤ m

-- A grant by the first voucher of the code, or, where no voucher has it, by the first promo.
abbrev pub IsGranted : Env → ℕ → DiscountResult → Option Voucher → Option Promo → Type 0
IsGranted env n r (some v) _ = IsVoucherGrant env n r v
IsGranted env n r none (some p) = IsPromoGrant env n r p
IsGranted env n r none none = ⊥

use_voucher-IsVoucherGrant :
    (env : Env) (v : Voucher) (n : ℕ) (d : Db)
    → OnOk
        (λ r d'. (d' ≡ d) × (r.discount_amount ≤ n) × IsVoucherGrant env n r v)
        (use_voucher env v n d)
unfolding use_voucher voucher_result
use_voucher-IsVoucherGrant env v n d = ground arith

use_promo-IsPromoGrant :
    (env : Env) (p : Promo) (n : ℕ) (d : Db)
    → OnOk
        (λ r d'. (d' ≡ d) × (r.discount_amount ≤ n) × IsPromoGrant env n r p)
        (use_promo env p n d)
unfolding use_promo promo_result
use_promo-IsPromoGrant env p n d = ground arith

-- A discount that is granted is at most the subtotal, comes from the first voucher of the trimmed,
-- upper-cased code or, where there is none, from the first promo, whose terms are met, and changes
-- nothing.
pub validate_code-IsGranted :
    (env : Env) (code : Code) (n : ℕ) (d : Db)
    → let c = normalize code in
      OnOk
        (λ r d'.
          (d' ≡ d)
          × (r.discount_amount ≤ n)
          × IsGranted env n r (find (has_code c) d.vouchers) (find (promo_has_code c) d.promos))
        (validate_code env code n d)
unfolding validate_code
validate_code-IsGranted env code n d =
    go (find (has_code (normalize code)) d.vouchers)
      (find (promo_has_code (normalize code)) d.promos)
  where
    go :
        (v : Option Voucher) (p : Option Promo)
        → OnOk
            (λ r d'. (d' ≡ d) × (r.discount_amount ≤ n) × IsGranted env n r v p)
            (validate_found env v p n d)
    go (some v) p = use_voucher-IsVoucherGrant env v n d
    go none (some p) = use_promo-IsPromoGrant env p n d
    go none none = tt
