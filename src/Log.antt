-- ===== src/Log.antt =====
-- The flash session log: src/imu/imu_log.c.
pub mod Entry
pub mod State
pub mod Writer
pub mod Api
pub mod Sessions
pub mod Reading
pub mod Contents
pub mod ReadBack
pub mod Staging
pub mod Frame
pub mod Drain
pub mod Events
pub mod Pipeline
mod Shifted
pub mod Order
pub mod Recovery
pub mod Scenario
mod Tests
