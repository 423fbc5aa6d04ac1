-- ===== src/Device.antt =====
-- The device that the commands act on: src/app/session.c and src/app/device_cmd.c.
pub mod Session
pub mod Commands
pub mod Clock
pub mod Arbiter
pub mod Detached
pub mod Handshake
pub mod Scenario
mod Tests
