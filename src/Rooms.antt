-- ===== src/Rooms.antt =====
-- src/rooms/rooms.service.ts: views of rooms, creation, group management, leaving.
pub mod View
pub mod Checks
pub mod Members
pub mod Create
pub mod Manage
pub mod Leave
pub mod Listing
