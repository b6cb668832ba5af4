-- ===== src/Messages.antt =====
-- src/messages: system payloads and previews, sequence numbers, sending, reading, history, unsending.
pub mod SystemMessage
pub mod Preview
pub mod Seq
pub mod Checks
pub mod Persist
pub mod Create
pub mod Read
pub mod Unsend
pub mod History
