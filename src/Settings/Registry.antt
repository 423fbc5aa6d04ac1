-- ===== src/Settings/Registry.antt =====
-- src/settings/settings_gen.h: ids, defaults and ranges; and `meta_for` of settings_store.c.
use moamoa_caterpillar_firmw.Base.{ℕ, List, [], ◌∷◌, Option, none, some, ◌==◌, if◌then◌else◌}

abbrev pub motor_freq_hz : ℕ
motor_freq_hz = 1

abbrev pub motor_vdc_mv : ℕ
motor_vdc_mv = 2

abbrev pub imu_odr_code : ℕ
imu_odr_code = 3

abbrev pub imu_content : ℕ
imu_content = 4

abbrev pub imu_accel_fs : ℕ
imu_accel_fs = 5

abbrev pub imu_gyro_fs : ℕ
imu_gyro_fs = 6

abbrev pub preview_hz : ℕ
preview_hz = 7

abbrev pub led_enabled : ℕ
led_enabled = 8

abbrev pub robot_id : ℕ
robot_id = 9

-- `struct setting_meta`; the name is only for documentation and no code reads it.
pub record SettingMeta : Type 0 where
  pub id : ℕ
  pub def : ℕ
  pub min : ℕ
  pub max : ℕ

-- SETTINGS_TABLE
abbrev pub table : List SettingMeta
table =
    record { id = 1; def = 150; min = 4; max = 1000 }
    ∷ record { id = 2; def = 3100; min = 750; max = 4200 }
    ∷ record { id = 3; def = 7; min = 1; max = 10 }
    ∷ record { id = 4; def = 3; min = 1; max = 3 }
    ∷ record { id = 5; def = 0; min = 0; max = 3 }
    ∷ record { id = 6; def = 0; min = 0; max = 3 }
    ∷ record { id = 7; def = 0; min = 0; max = 6660 }
    ∷ record { id = 8; def = 1; min = 0; max = 1 }
    ∷ record { id = 9; def = 0; min = 0; max = 20 }
    ∷ []

-- The loop of `meta_for`, from the entry that the list begins with.
unfoldable pub find_meta : List SettingMeta → ℕ → Option SettingMeta
find_meta [] id = none
find_meta (m ∷ ms) id = if m.id == id then some m else find_meta ms id

unfoldable pub meta_for : ℕ → Option SettingMeta
unfolding find_meta
meta_for id = find_meta table id
