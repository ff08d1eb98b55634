-- ===== src/Catalog.antt =====
-- The catalog service: stores, products and their reviews, over a document store.
-- services/catalog/src
pub mod Slugs
pub mod Free
pub mod Schema
pub mod Stores
pub mod Created
pub mod Products
pub mod Reviews
pub mod Calls
pub mod Counted
pub mod Withdrawn
pub mod StoreTotals
pub mod ProductTotals
pub mod Totals
pub mod Deliveries
pub mod Ratings
