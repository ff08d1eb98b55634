-- ===== src/Tests.antt =====
-- A small shop, the operations run on it, and the theorems at it.
pub mod Accounts
pub mod Catalog
pub mod Shop
pub mod Buying
pub mod Selling
pub mod Reading
pub mod Sync
