-- ===== src/Discounts.antt =====
-- DiscountsService: services/commerce/src/modules/discounts/discounts.service.ts
pub mod Codes
pub mod Bounds
pub mod Spelling
use seapedia.Prelude.{
  ℕ, ◌+◌, ◌-◌, ◌*◌, ◌/◌, Bool, true, false, ◌&&◌, Option, none, some, List, [], ◌∷◌, ◌++◌, min, ltb,
  leb, ◌==◌, is_some, find, update, sort_by, if◌then◌else◌,
}
use seapedia.Db.{
  Voucher, Promo, DiscountType, Code, Db, Result, ok, err, Action, pure, throw, gets, or_throw,
  ◌>>=◌, ◌>>◌, throw_if, modify, not_found, validation, Reason, Env, Error, constraint,
}
use seapedia.Discounts.Codes.{normalize, upper, same_code}

-- The texts 'Rp … flat discount' and '…% discount (max Rp …)'.
pub data Description : Type 0 where
  flat : ℕ → Description
  percentage : ℕ → Option ℕ → Description

pub record DiscountResult : Type 0 where
  pub id : ℕ
  pub kind : DiscountType
  pub code : Code
  pub discount_amount : ℕ
  pub description : Description

abbrev pub has_code : Code → Voucher → Bool
has_code c v = same_code (upper v.code) c

abbrev pub promo_has_code : Code → Promo → Bool
promo_has_code c p = same_code (upper p.code) c

unfoldable pub voucher_result : Voucher → ℕ → DiscountResult
voucher_result v subtotal = record {
  id = v.id;
  kind = DiscountType.voucher;
  code = v.code;
  discount_amount = min v.discount_amount subtotal;
  description = flat v.discount_amount;
}

unfoldable pub use_voucher : Env → Voucher → ℕ → Action DiscountResult
use_voucher env v subtotal = do
  throw_if (ltb v.expires_at env.now) (validation Reason.voucher_expired)
  throw_if (v.remaining_usage == 0) (validation Reason.voucher_used_up)
  throw_if (ltb subtotal v.min_order_amount)
      (validation (Reason.minimum_not_met v.min_order_amount))
  pure (voucher_result v subtotal)

-- `if (promo.maxDiscountAmount != null) …`
abbrev pub capped : Option ℕ → ℕ → ℕ
capped none x = x
capped (some m) x = min x m

-- `promo.maxDiscountAmount ? … : ''`: a cap of 0 is not described.
abbrev described_cap : Option ℕ → Option ℕ
described_cap none = none
described_cap (some m) = if m == 0 then none else some m

unfoldable pub promo_result : Promo → ℕ → DiscountResult
promo_result p subtotal = record {
  id = p.id;
  kind = DiscountType.promo;
  code = p.code;
  discount_amount =
      min (capped p.max_discount_amount (subtotal * p.discount_percent / 100)) subtotal;
  description = percentage p.discount_percent (described_cap p.max_discount_amount);
}

unfoldable pub use_promo : Env → Promo → ℕ → Action DiscountResult
use_promo env p subtotal = do
  throw_if (ltb p.expires_at env.now) (validation Reason.promo_expired)
  throw_if (ltb subtotal p.min_order_amount)
      (validation (Reason.minimum_not_met p.min_order_amount))
  pure (promo_result p subtotal)

-- A voucher of the code comes before a promo of it.
abbrev pub validate_found : Env → Option Voucher → Option Promo → ℕ → Action DiscountResult
validate_found env (some v) _ subtotal = use_voucher env v subtotal
validate_found env none (some p) subtotal = use_promo env p subtotal
validate_found env none none subtotal = throw (not_found Reason.invalid_code)

unfoldable pub validate_code : Env → Code → ℕ → Action DiscountResult
unfolding use_voucher use_promo voucher_result promo_result
validate_code env code subtotal d =
    let c = normalize code in
    validate_found env (find (has_code c) d.vouchers) (find (promo_has_code c) d.promos) subtotal d

abbrev pub is_usable : ℕ → Voucher → Bool
is_usable id v = v.id == id && ltb 0 v.remaining_usage

abbrev pub use_once : Env → Voucher → Voucher
use_once env v = record v { remaining_usage = v.remaining_usage - 1; updated_at = env.now }

-- `decrementVoucherUsage`
unfoldable pub decrement_voucher_usage : Env → ℕ → Action (Unit {0})
decrement_voucher_usage env id = do
  or_throw (← gets (λ d. find (is_usable id) d.vouchers)) (validation Reason.no_usage_left)
  modify (λ d. record d { vouchers = update (is_usable id) (use_once env) d.vouchers })

abbrev insert_voucher : Voucher → Action Voucher
insert_voucher row d = (ok row, record d { vouchers = d.vouchers ++ (row ∷ []) })

-- The column `code` is unique.
unfoldable pub create_voucher :
    Env → Code → (discount_amount min_order_amount expires_at usage : ℕ) → Action Voucher
create_voucher env code amount minimum expires usage = do
  throw_if (is_some (← gets (λ d. find (λ (v : Voucher). same_code v.code code) d.vouchers)))
      constraint
  insert_voucher (record {
    id = env.uuid 0;
    code = code;
    discount_amount = amount;
    min_order_amount = minimum;
    expires_at = expires;
    remaining_usage = usage;
    created_at = env.now;
    updated_at = env.now;
  })

abbrev insert_promo : Promo → Action Promo
insert_promo row d = (ok row, record d { promos = d.promos ++ (row ∷ []) })

unfoldable pub create_promo :
    Env → Code → (percent : ℕ) → (cap : Option ℕ) → (min_order_amount expires_at : ℕ) → Action Promo
create_promo env code percent cap minimum expires = do
  throw_if (is_some (← gets (λ d. find (λ (p : Promo). same_code p.code code) d.promos))) constraint
  insert_promo (record {
    id = env.uuid 0;
    code = code;
    discount_percent = percent;
    max_discount_amount = cap;
    min_order_amount = minimum;
    expires_at = expires;
    created_at = env.now;
    updated_at = env.now;
  })

unfoldable pub list_vouchers : Action (List Voucher)
list_vouchers = gets (λ d. sort_by (λ (v w : Voucher). leb w.created_at v.created_at) d.vouchers)

unfoldable pub get_voucher : ℕ → Action Voucher
get_voucher id = do
  or_throw (← gets (λ d. find (λ (v : Voucher). v.id == id) d.vouchers))
      (not_found Reason.voucher_missing)

unfoldable pub list_promos : Action (List Promo)
list_promos = gets (λ d. sort_by (λ (p q : Promo). leb q.created_at p.created_at) d.promos)

unfoldable pub get_promo : ℕ → Action Promo
get_promo id = do
  or_throw (← gets (λ d. find (λ (p : Promo). p.id == id) d.promos))
      (not_found Reason.promo_missing)
