-- ===== src/Imu.antt =====
-- The IMU pipeline: the block shared by the two cores (common/imu_shared.h), the sampler of the
-- FLPR core (flpr/src), and the pump of the app core (src/imu/imu_pump.c).
pub mod Shared
pub mod Sensor
pub mod Sampler
pub mod Drdy
pub mod Launch
pub mod Pump
pub mod Spsc
pub mod Tests
