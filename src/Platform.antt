-- ===== src/Platform.antt =====
-- What the services share: errors, transactions and the rules for them.
-- packages/platform/src
pub mod Monad
pub mod Rules
pub mod Denylist
pub mod Auth
pub mod Relay
pub mod Lossless
pub mod Consumer
pub mod Settled
