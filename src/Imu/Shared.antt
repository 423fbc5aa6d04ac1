-- ===== src/Imu/Shared.antt =====
-- common/imu_shared.h: the sample record and the shared control block.
use moamoa_caterpillar_firmw.Base.{ℕ, Bool, if◌then◌else◌, ◌==◌, List, ◌++◌, le16}
use moamoa_caterpillar_firmw.Errno.{Status}

abbrev pub imu_shared_magic : ℕ
imu_shared_magic = 0x494D5532

-- IMU_RING_N
abbrev pub imu_ring_n : ℕ
imu_ring_n = 2048

abbrev pub imu_odr_12hz5 : ℕ
imu_odr_12hz5 = 1

abbrev pub imu_odr_833hz : ℕ
imu_odr_833hz = 7

abbrev pub imu_odr_6660hz : ℕ
imu_odr_6660hz = 10

-- `struct imu_sample`. An int16_t field is its bit pattern.
pub record Sample : Type 0 where
  pub ax : ℕ
  pub ay : ℕ
  pub az : ℕ
  pub gx : ℕ
  pub gy : ℕ
  pub gz : ℕ
  pub temp_raw : ℕ
  pub seq16 : ℕ

abbrev pub zero_sample : Sample
zero_sample = record { ax = 0; ay = 0; az = 0; gx = 0; gy = 0; gz = 0; temp_raw = 0; seq16 = 0 }

-- The 16 bytes of the struct in memory.
unfoldable pub sample_bytes : Sample → List ℕ
sample_bytes s =
    le16 s.ax
    ++ le16 s.ay
    ++ le16 s.az
    ++ le16 s.gx
    ++ le16 s.gy
    ++ le16 s.gz
    ++ le16 s.temp_raw
    ++ le16 s.seq16

-- `struct imu_shared`; the ring is a function of the index, which is always below IMU_RING_N.
pub record Shared : Type 0 where
  pub magic : ℕ
  pub flpr_version : ℕ
  pub imu_ok : Bool
  pub whoami : ℕ
  pub cfg_seq : ℕ
  pub cfg_odr : ℕ
  pub cfg_content : ℕ
  pub cfg_accel_fs : ℕ
  pub cfg_gyro_fs : ℕ
  pub cfg_applied : ℕ
  pub cfg_status : Status
  pub head : ℕ
  pub tail : ℕ
  pub overrun : ℕ
  pub ring : ℕ → Sample

-- A store to an array cell.
unfoldable pub update {ℓ} : {A : Type ℓ} → (ℕ → A) → ℕ → A → ℕ → A
update f i v j = if i == j then v else f j
