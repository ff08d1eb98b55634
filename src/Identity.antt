-- ===== src/Identity.antt =====
-- The identity service: accounts, their roles, sessions with rotating refresh tokens.
-- services/identity/src
pub mod Schema
pub mod Roles
pub mod Sessions
pub mod Accounts
pub mod Profile
pub mod Calls
pub mod Moves
pub mod Quiet
pub mod Refines
pub mod Rotation
pub mod Ended
pub mod Spent
pub mod Denied
pub mod Announced
pub mod Chronicle
pub mod Folk
pub mod Truth
pub mod Keeps
pub mod Changes
pub mod Replicated
pub mod Logins
pub mod Avatars
pub mod Clients
pub mod Sync
