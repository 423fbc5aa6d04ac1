-- ===== src/Drivers.antt =====
-- The drivers of src/drivers.
pub mod Pwm
pub mod Waveform
pub mod Digipot
pub mod Ramp
pub mod Voltage
pub mod Switches
pub mod Led
pub mod Heartbeat
mod Tests
