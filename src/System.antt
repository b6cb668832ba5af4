-- ===== src/System.antt =====
-- The server as a whole.
pub mod Quiet
pub mod Preserves
pub mod Requests
pub mod Messages
pub mod Keys
pub mod Accounts
pub mod Stays
pub mod Run
pub mod Sent
