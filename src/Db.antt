-- ===== src/Db.antt =====
-- The commerce service's database, its errors, and the statements and transactions over it.
-- services/commerce/src/db, packages/platform/src/errors.ts
pub mod Enums
pub mod Schema
pub mod Monad
pub use Enums.*
pub use Schema.*
pub use Monad.*
pub use seapedia.Platform.Rules.{
  OnOk, Commits, OnOk-continue, OnOk-imp, ok-injective, OnOk-ok, OnOk-of_state, continue_state,
  transaction_state, Commits-transaction, OnOk-transaction, OnOk-Unit,
}
