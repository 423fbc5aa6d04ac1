-- ===== src/Gatt.antt =====
-- The GATT service: src/ble/ble_interface.c.
pub mod Advert
pub mod Board
pub mod Writes
pub mod Link
pub mod Reads
pub mod Rejections
pub mod Sampling
mod Tests
