-- ===== src/Imu/Sensor.antt =====
-- flpr/src/driver_asm330lhh.c: the register-level driver of the ASM330LHH. SPI transfers are
-- Zephyr's: the status of each register write and the bytes of each read are parameters.
use moamoa_caterpillar_firmw.Base.{
  ℕ, zero, suc, ◌+◌, ◌*◌, ◌/◌, ◌%◌, Bool, true, not, ◌||◌, List, [], ◌∷◌, Option, none, some, ltb,
  ◌==◌, if◌then◌else◌, get_or, u8,
}
use moamoa_caterpillar_firmw.Errno.{einval, eio, enodev, Status, ok, err}
use moamoa_caterpillar_firmw.Imu.Shared.{imu_odr_12hz5, imu_odr_6660hz}

abbrev pub reg_int1_ctrl : ℕ
reg_int1_ctrl = 0x0D

abbrev pub reg_ctrl1_xl : ℕ
reg_ctrl1_xl = 0x10

abbrev pub reg_ctrl2_g : ℕ
reg_ctrl2_g = 0x11

abbrev pub reg_ctrl3_c : ℕ
reg_ctrl3_c = 0x12

abbrev pub reg_ctrl4_c : ℕ
reg_ctrl4_c = 0x13

abbrev pub who_am_i_expect : ℕ
who_am_i_expect = 0x6B

-- fs_xl_bits[4]
abbrev pub fs_xl_bits : List ℕ
fs_xl_bits = 0 ∷ 2 ∷ 3 ∷ 1 ∷ []

-- `struct asm330lhh_raw`
pub record Raw : Type 0 where
  pub ax : ℕ
  pub ay : ℕ
  pub az : ℕ
  pub gx : ℕ
  pub gy : ℕ
  pub gz : ℕ
  pub temp_raw : ℕ

-- The bit pattern of the int16_t: (h << 8) | l.
unfoldable pub sign_extend_pair : ℕ → ℕ → ℕ
sign_extend_pair l h = h * 256 + l

-- `drv_asm330lhh_read`, on the 14 bytes that the burst read delivers (TEMP_L..OUTZ_H_A).
unfoldable pub raw_of_bytes : List ℕ → Raw
unfolding sign_extend_pair
raw_of_bytes b = record {
  temp_raw = sign_extend_pair (get_or b 0 0) (get_or b 1 0);
  gx = sign_extend_pair (get_or b 2 0) (get_or b 3 0);
  gy = sign_extend_pair (get_or b 4 0) (get_or b 5 0);
  gz = sign_extend_pair (get_or b 6 0) (get_or b 7 0);
  ax = sign_extend_pair (get_or b 8 0) (get_or b 9 0);
  ay = sign_extend_pair (get_or b 10 0) (get_or b 11 0);
  az = sign_extend_pair (get_or b 12 0) (get_or b 13 0);
}

-- The registers that a call has written, in order, with its result.
abbrev pub RegWrites : Type 0
RegWrites = List (ℕ × ℕ)

-- `if (ret == 0) ret = reg_write(...)` along a list of writes.
unfoldable pub write_regs : (ℕ → ℕ → Status) → RegWrites → Status × RegWrites
write_regs spi [] = (ok, [])
write_regs spi ((reg, val) ∷ rest) =
    let more = write_regs spi rest in
    elim (spi reg val) [ ok ↦ (more.0, (reg, val) ∷ more.1) | err e ↦ (err e, (reg, val) ∷ []) ]

-- IMU_CONTENT_ACCEL is bit 0 and IMU_CONTENT_GYRO bit 1; `content & ~3` is `content / 4`.
abbrev pub accel_on : ℕ → Bool
accel_on content = content % 2 == 1

abbrev pub gyro_on : ℕ → Bool
gyro_on content = content / 2 % 2 == 1

-- The values of CTRL1_XL, CTRL2_G and INT1_CTRL. The codes are below 16 and 4, so the fields of
-- `(odr << 4) | (fs << 2)` do not overlap.
unfoldable pub ctrl1 : ℕ → ℕ → ℕ → ℕ
ctrl1 odr content accel_fs =
    if accel_on content then u8 (odr * 16 + get_or fs_xl_bits accel_fs 0 * 4) else 0

unfoldable pub ctrl2 : ℕ → ℕ → ℕ → ℕ
ctrl2 odr content gyro_fs = if gyro_on content then u8 (odr * 16 + gyro_fs * 4) else 0

unfoldable pub int1 : ℕ → ℕ
int1 content = if gyro_on content then 2 else (if accel_on content then 1 else 0)

-- `drv_asm330lhh_configure`. The scratch read and the semaphore reset at its end have no result; what
-- they do to the interrupt is the subject of Imu.Drdy.
unfoldable pub configure : (ℕ → ℕ → Status) → ℕ → ℕ → ℕ → ℕ → Status × RegWrites
unfolding write_regs ctrl1 ctrl2 int1
configure spi odr content accel_fs gyro_fs =
    if ltb odr imu_odr_12hz5
      || ltb imu_odr_6660hz odr
      || not (content / 4 == 0)
      || ltb 3 accel_fs
      || ltb 3 gyro_fs
    then (err einval, [])
    else write_regs spi (
        (reg_ctrl1_xl, ctrl1 odr content accel_fs)
        ∷ (reg_ctrl2_g, ctrl2 odr content gyro_fs)
        ∷ (reg_int1_ctrl, int1 content)
        ∷ [])

-- The WHO_AM_I loop of `drv_asm330lhh_init`, with the attempts left and what each read returns,
-- `none` for a failed transfer; `some` is the id with which the loop breaks off.
unfoldable pub probe : ℕ → List (Option ℕ) → Option ℕ
probe zero reads = none
probe (suc attempts) [] = none
probe (suc attempts) (none ∷ reads) = probe attempts reads
probe (suc attempts) (some whoami ∷ reads) =
    let rest = probe attempts reads in if whoami == who_am_i_expect then some whoami else rest

-- What the calls of `drv_asm330lhh_init` return.
pub record InitEnv : Type 0 where
  pub spi_ready : Bool
  pub cs_ready : Bool
  pub cs_configured : Status
  pub reads : List (Option ℕ)  -- the reads of WHO_AM_I behind the dummy read
  pub spi : ℕ → ℕ → Status
  pub drdy_setup : Status

-- The statics `imu_ok` and `last_whoami`.
pub record Sensor : Type 0 where
  pub imu_ok : Bool
  pub last_whoami : ℕ

-- `drv_asm330lhh_init`
unfoldable pub init_regs : InitEnv → Sensor → Status × Sensor
init_regs env s = elim (env.spi reg_ctrl3_c 0x44) [
  | err e ↦ (err e, s)
  | ok ↦ elim (env.spi reg_ctrl4_c 0x04) [
    | err e ↦ (err e, s)
    | ok ↦ elim env.drdy_setup [ err e ↦ (err e, s) | ok ↦ (ok, record s { imu_ok = true }) ]
  ]
]

unfoldable pub init : InitEnv → Sensor → Status × Sensor
unfolding probe init_regs
init env s =
    if not env.spi_ready || not env.cs_ready then (err enodev, s) else elim env.cs_configured [
      | err e ↦ (err e, s)
      | ok ↦ elim (probe 3 env.reads) [
        | none ↦ (err eio, s)
        | some whoami ↦ init_regs env (record s { last_whoami = whoami })
      ]
    ]
