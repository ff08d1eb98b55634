-- ===== src/Db/Monad.antt =====
-- The errors of the commerce service, and its operations as actions on its database.
-- packages/platform/src/errors.ts
use seapedia.Prelude.{ℕ, String}
use seapedia.Db.Schema.{Db}
use seapedia.Platform.Monad
pub use seapedia.Platform.Monad.{
  ok, err, not_found, validation, forbidden, conflict, unauthorized, out_of_range, constraint, pure,
  throw, gets, or_throw, commit_or_rollback, transaction, continue, ◌>>=◌, ◌>>◌, throw_if, modify,
  max_int, Env,
}

-- The messages, with the values that they interpolate.
pub data Reason : Type 0 where
  address_not_owned cart_uninitialised cart_empty insufficient_balance balance_changed : Reason
  insufficient_stock : (name : String) (left : ℕ) → Reason
  stock_changed : (name : String) → Reason
  voucher_expired voucher_used_up no_usage_left promo_expired invalid_code : Reason
  minimum_not_met : ℕ → Reason
  voucher_missing promo_missing : Reason
  quantity_not_positive product_missing other_store cart_missing item_missing : Reason
  only_left : ℕ → Reason
  exceeds_stock : ℕ → Reason
  product_syncing not_your_product address_missing : Reason
  store_missing order_missing not_packed : Reason
  job_missing job_unavailable order_not_ready job_not_completable order_not_in_delivery : Reason

abbrev pub Error : Type 0
Error = Monad.Error Reason

abbrev pub Result : Type 0 → Type 0
Result A = Monad.Result Reason A

abbrev pub Action : Type 0 → Type 0
Action A = Monad.Action Db Reason A
