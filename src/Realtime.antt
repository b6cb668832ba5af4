-- ===== src/Realtime.antt =====
-- src/realtime/realtime.gateway.ts: sockets, what they ask for, and what is sent to them.
pub mod Socket
pub mod Handlers
pub mod Delivery
pub mod Connection
pub mod Codes
