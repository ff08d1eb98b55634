-- ===== src/Orders.antt =====
-- Orders after checkout: the seller, the drivers and the overdue run, and the order's life cycle.
pub mod Detail
pub mod Reports
pub mod Grouped
pub mod Jobs
pub mod Offers
pub mod Pages
pub mod Dashboard
pub mod Seller
pub mod Driver
pub mod Overdue
pub mod Clock
pub mod Refunds
pub mod Lifecycle
pub mod Transitions
pub mod Runs
pub mod Custody
pub mod Restock
pub mod Returns
pub mod Race
