-- ===== src/Gatt/Sampling.antt =====
-- From a write of the sampling configuration to the registers of the sensor:
-- src/ble/ble_interface.c, src/app/session.c and flpr/src/driver_asm330lhh.c.
use moamoa_caterpillar_firmw.Base.{
  ℕ, ◌≤◌, ◌≡◌, refl, ◌∙◌, true, List, [], ◌∷◌, some, arith, if◌then◌else◌, ◌==◌, u8, get_or, clamp,
  min,
}
use moamoa_caterpillar_firmw.Errno.{Status}
use moamoa_caterpillar_firmw.Imu.Sensor.{
  configure, write_regs, ctrl1, ctrl2, int1, reg_ctrl1_xl, reg_ctrl2_g, reg_int1_ctrl,
}
use moamoa_caterpillar_firmw.Settings.Registry.{
  SettingMeta, meta_for, find_meta, imu_odr_code, imu_content, imu_accel_fs, imu_gyro_fs,
  preview_hz,
}
use moamoa_caterpillar_firmw.Settings.Store.{Store, settings_get, settings_set}
use moamoa_caterpillar_firmw.Settings.Ranges.{IsValid, settings_get-set, settings_set-IsValid}
use moamoa_caterpillar_firmw.Device.Session.{Device, wanted_content, session_imu_run_update}
use moamoa_caterpillar_firmw.Gatt.Writes.{imucfg_allowed, imucfg_settings}
use moamoa_caterpillar_firmw.Device.Arbiter.{IsUp}

-- What the store returns for a setting of the registry.
pub get-in_range :
    (s : Store) (id : ℕ) (m : SettingMeta)
    → IsValid s
    → meta_for id ≡ some m
    → (m.min ≤ settings_get s id) × (settings_get s id ≤ m.max)
unfolding settings_get
get-in_range s id m v e = ground (arith, v.is_loaded, v.in_range id m e, e)

configure-accepts :
    (spi : ℕ → ℕ → Status) (odr content afs gfs : ℕ)
    → 1 ≤ odr
    → odr ≤ 10
    → content ≤ 3
    → afs ≤ 3
    → gfs ≤ 3
    → configure spi odr content afs gfs
      ≡ write_regs spi (
          (reg_ctrl1_xl, ctrl1 odr content afs)
          ∷ (reg_ctrl2_g, ctrl2 odr content gfs)
          ∷ (reg_int1_ctrl, int1 content)
          ∷ [])
unfolding configure
configure-accepts spi odr content afs gfs h1 h2 h3 h4 h5 = ground arith

abbrev odr_entry : SettingMeta
odr_entry = record { id = 3; def = 7; min = 1; max = 10 }

abbrev content_entry : SettingMeta
content_entry = record { id = 4; def = 3; min = 1; max = 3 }

abbrev accel_entry : SettingMeta
accel_entry = record { id = 5; def = 0; min = 0; max = 3 }

abbrev gyro_entry : SettingMeta
gyro_entry = record { id = 6; def = 0; min = 0; max = 3 }

imu_entries :
    (meta_for imu_odr_code ≡ some odr_entry)
    × (meta_for imu_content ≡ some content_entry)
    × (meta_for imu_accel_fs ≡ some accel_entry)
    × (meta_for imu_gyro_fs ≡ some gyro_entry)
unfolding meta_for find_meta
imu_entries = (refl, refl, refl, refl)

-- What the arbiter asks for.
run_update-config :
    (now : ℕ) (d : Device)
    → IsUp d
    → let sh = (session_imu_run_update now d).sh in
      (sh.cfg_odr ≡ u8 (settings_get d.settings imu_odr_code))
      × (sh.cfg_content ≡ wanted_content d)
      × (sh.cfg_accel_fs ≡ u8 (settings_get d.settings imu_accel_fs))
      × (sh.cfg_gyro_fs ≡ u8 (settings_get d.settings imu_gyro_fs))
unfolding session_imu_run_update
run_update-config now d up = ground (arith, up)

wanted_content-small : (d : Device) → settings_get d.settings imu_content ≤ 3 → wanted_content d ≤ 3
unfolding wanted_content
wanted_content-small d h = ground arith

-- Whatever the settings, as long as they are valid: what the arbiter asks the sampler for is
-- accepted by the sensor's driver, which writes the three registers for it.
pub run_update-accepted :
    (spi : ℕ → ℕ → Status) (now : ℕ) (d : Device)
    → IsUp d
    → IsValid d.settings
    → let sh = (session_imu_run_update now d).sh in
      configure spi sh.cfg_odr sh.cfg_content sh.cfg_accel_fs sh.cfg_gyro_fs
      ≡ write_regs spi (
          (reg_ctrl1_xl, ctrl1 sh.cfg_odr sh.cfg_content sh.cfg_accel_fs)
          ∷ (reg_ctrl2_g, ctrl2 sh.cfg_odr sh.cfg_content sh.cfg_gyro_fs)
          ∷ (reg_int1_ctrl, int1 sh.cfg_content)
          ∷ [])
run_update-accepted spi now d up v =
    let (odr, content, afs, gfs) = run_update-config now d up in
    let (e1, e2, e3, e4) = imu_entries in
    let odr_range = get-in_range d.settings imu_odr_code odr_entry v e1 in
    let content_range = get-in_range d.settings imu_content content_entry v e2 in
    let accel_range = get-in_range d.settings imu_accel_fs accel_entry v e3 in
    let gyro_range = get-in_range d.settings imu_gyro_fs gyro_entry v e4 in
    configure-accepts spi _ _ _ _ (omega (arith, odr, odr_range)) (omega (arith, odr, odr_range))
      (omega (arith, content, wanted_content-small d content_range.1))
      (omega (arith, afs, accel_range)) (omega (arith, gfs, gyro_range))

abbrev preview_entry : SettingMeta
preview_entry = record { id = 7; def = 0; min = 0; max = 6660 }

preview_known : meta_for preview_hz ≡ some preview_entry
unfolding meta_for find_meta
preview_known = refl

-- What an accepted request says.
allowed_lem :
    (buf : List ℕ)
    → imucfg_allowed buf ≡ true
    → ((1 ≤ get_or buf 0 0) × (get_or buf 0 0 ≤ 10))
      × ((1 ≤ get_or buf 1 0) × (get_or buf 1 0 ≤ 3))
      × (get_or buf 2 0 ≤ 3)
      × (get_or buf 3 0 ≤ 3)
unfolding imucfg_allowed
allowed_lem buf h = ground (arith, h)

imucfg_settings-IsValid :
    (buf : List ℕ) (preview : ℕ) (s : Store) → IsValid s → IsValid (imucfg_settings buf preview s)
unfolding imucfg_settings
imucfg_settings-IsValid buf preview s v = settings_set-IsValid _ _ _ (
    settings_set-IsValid _ _ _
      (settings_set-IsValid _ _ _ (settings_set-IsValid _ _ _ (settings_set-IsValid _ _ _ v))))

-- The settings hold what an accepted request said, the settings stay valid, and the cap of the
-- preview is kept up to the highest rate.
pub imucfg-remembered :
    (buf : List ℕ) (preview : ℕ) (s : Store)
    → IsValid s
    → imucfg_allowed buf ≡ true
    → let s' = imucfg_settings buf preview s in
      IsValid s'
      × (settings_get s' imu_odr_code ≡ get_or buf 0 0)
      × (settings_get s' imu_content ≡ get_or buf 1 0)
      × (settings_get s' imu_accel_fs ≡ get_or buf 2 0)
      × (settings_get s' imu_gyro_fs ≡ get_or buf 3 0)
      × (settings_get s' preview_hz ≡ min preview 6660)
unfolding imucfg_settings
imucfg-remembered buf preview s v h = (
  imucfg_settings-IsValid buf preview s v,
  g4 imu_odr_code
      ∙ g3 imu_odr_code
      ∙ g2 imu_odr_code
      ∙ g1 imu_odr_code
      ∙ g0 imu_odr_code
      ∙ omega (arith, fits),
  g4 imu_content ∙ g3 imu_content ∙ g2 imu_content ∙ g1 imu_content ∙ omega (arith, fits),
  g4 imu_accel_fs ∙ g3 imu_accel_fs ∙ g2 imu_accel_fs ∙ omega (arith, fits),
  g4 imu_gyro_fs ∙ g3 imu_gyro_fs ∙ omega (arith, fits),
  g4 preview_hz ∙ omega arith,
)
  where
    fits :
        ((1 ≤ get_or buf 0 0) × (get_or buf 0 0 ≤ 10))
        × ((1 ≤ get_or buf 1 0) × (get_or buf 1 0 ≤ 3))
        × (get_or buf 2 0 ≤ 3)
        × (get_or buf 3 0 ≤ 3)
    fits = allowed_lem buf h

    s0 : Store
    s0 = settings_set s imu_odr_code (get_or buf 0 0)

    s1 : Store
    s1 = settings_set s0 imu_content (get_or buf 1 0)

    s2 : Store
    s2 = settings_set s1 imu_accel_fs (get_or buf 2 0)

    s3 : Store
    s3 = settings_set s2 imu_gyro_fs (get_or buf 3 0)

    v0 : IsValid s0
    v0 = settings_set-IsValid s imu_odr_code (get_or buf 0 0) v

    v1 : IsValid s1
    v1 = settings_set-IsValid s0 imu_content (get_or buf 1 0) v0

    v2 : IsValid s2
    v2 = settings_set-IsValid s1 imu_accel_fs (get_or buf 2 0) v1

    v3 : IsValid s3
    v3 = settings_set-IsValid s2 imu_gyro_fs (get_or buf 3 0) v2

    g0 :
        (j : ℕ)
        → settings_get s0 j
          ≡ (if imu_odr_code == j then clamp (get_or buf 0 0) 1 10 else settings_get s j)
    g0 j = settings_get-set s imu_odr_code (get_or buf 0 0) j odr_entry v imu_entries.0

    g1 :
        (j : ℕ)
        → settings_get s1 j
          ≡ (if imu_content == j then clamp (get_or buf 1 0) 1 3 else settings_get s0 j)
    g1 j = settings_get-set s0 imu_content (get_or buf 1 0) j content_entry v0 imu_entries.1

    g2 :
        (j : ℕ)
        → settings_get s2 j
          ≡ (if imu_accel_fs == j then clamp (get_or buf 2 0) 0 3 else settings_get s1 j)
    g2 j = settings_get-set s1 imu_accel_fs (get_or buf 2 0) j accel_entry v1 imu_entries.2

    g3 :
        (j : ℕ)
        → settings_get s3 j
          ≡ (if imu_gyro_fs == j then clamp (get_or buf 3 0) 0 3 else settings_get s2 j)
    g3 j = settings_get-set s2 imu_gyro_fs (get_or buf 3 0) j gyro_entry v2 imu_entries.3

    g4 :
        (j : ℕ)
        → settings_get (settings_set s3 preview_hz preview) j
          ≡ (if preview_hz == j then clamp preview 0 6660 else settings_get s3 j)
    g4 j = settings_get-set s3 preview_hz preview j preview_entry v3 preview_known
