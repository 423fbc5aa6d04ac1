-- ===== src/Dump.antt =====
-- The log dump and the message channel: the second half of src/ble/ble_transport.c.
pub mod Notify
pub mod Credits
pub mod Thread
pub mod Chunks
pub mod Sessions
pub mod Messages
pub mod History
mod Tests
