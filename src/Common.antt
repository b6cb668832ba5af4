-- ===== src/Common.antt =====
-- What the services share (src/common): errors, the shapes they serialize, and domain events.
pub mod ErrorCode
pub mod Errors
pub mod Views
pub mod Events
pub mod Listing
pub mod Filter
