-- ===== src/Db/Enums.antt =====
-- The values of the `varchar` columns of services/commerce/src/db/schema that hold an enumeration,
-- with the Boolean tests that the queries make on them.
use seapedia.Prelude.{ℕ, Bool, true, false, String, List}

pub data OrderStatus : Type 0 where
  sedang_dikemas menunggu_pengirim sedang_dikirim pesanan_selesai dikembalikan : OrderStatus

abbrev pub same_status : OrderStatus → OrderStatus → Bool
same_status sedang_dikemas sedang_dikemas = true
same_status menunggu_pengirim menunggu_pengirim = true
same_status sedang_dikirim sedang_dikirim = true
same_status pesanan_selesai pesanan_selesai = true
same_status dikembalikan dikembalikan = true
same_status _ _ = false

pub data JobStatus : Type 0 where
  pending taken completed : JobStatus

abbrev pub same_job_status : JobStatus → JobStatus → Bool
same_job_status pending pending = true
same_job_status taken taken = true
same_job_status completed completed = true
same_job_status _ _ = false

-- `other` is any text that is no key of the fees.
pub data DeliveryMethod : Type 0 where
  instant next_day regular : DeliveryMethod
  other : String → DeliveryMethod

pub data DiscountType : Type 0 where
  voucher promo : DiscountType

pub data TransactionType : Type 0 where
  topup payment refund : TransactionType

pub data TransactionStatus : Type 0 where
  pending success failed : TransactionStatus

-- The texts `880…`, `PAY-…` and `REFUND-…`.
pub data Reference : Type 0 where
  topup_ref : ℕ → Reference
  pay_ref : ℕ → Reference
  refund_ref : ℕ → Reference

-- The code points of an ASCII text, for the discount codes that the code trims and upper-cases.
abbrev pub Code : Type 0
Code = List ℕ
