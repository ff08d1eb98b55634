-- ===== src/Checkout.antt =====
-- OrdersCheckoutService: services/commerce/src/modules/orders/orders-checkout.service.ts
pub mod Totals
pub mod Items
pub mod Place
pub mod Reads
pub mod Amounts
pub mod Stock
pub mod Placed
pub mod Payment
pub mod Preview
pub mod Agreement
pub mod Success
pub use Totals.*
pub use Items.*
pub use Place.*
