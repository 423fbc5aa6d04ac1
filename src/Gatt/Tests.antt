-- ===== src/Gatt/Tests.antt =====
-- Runs of the handlers: src/ble/ble_interface.c.
use moamoa_caterpillar_firmw.Base.{◌≡◌, refl, true, [], ◌∷◌, min, some}
use moamoa_caterpillar_firmw.Errno.{ok}
use moamoa_caterpillar_firmw.Imu.Sensor.{
  configure, write_regs, ctrl1, ctrl2, int1, reg_ctrl1_xl, reg_ctrl2_g, reg_int1_ctrl,
}
use moamoa_caterpillar_firmw.Settings.Registry.{
  imu_odr_code, imu_content, imu_accel_fs, imu_gyro_fs, preview_hz,
}
use moamoa_caterpillar_firmw.Settings.Store.{settings_get}
use moamoa_caterpillar_firmw.Settings.Ranges.{IsValid}
use moamoa_caterpillar_firmw.Drivers.Led.{boot}
use moamoa_caterpillar_firmw.Device.Session.{session_imu_run_update}
use moamoa_caterpillar_firmw.Device.Scenario.{booted, booted-IsValid, logging}
use moamoa_caterpillar_firmw.Gatt.Board.{Board, GattEnv, value_not_allowed, rejected}
use moamoa_caterpillar_firmw.Gatt.Writes.{
  on_write, logctl, on_logctl_write, imucfg_settings, imucfg_allowed,
}
use moamoa_caterpillar_firmw.Gatt.Reads.{ReadEnv}
use moamoa_caterpillar_firmw.Gatt.Rejections.{on_write-rejected}
use moamoa_caterpillar_firmw.Gatt.Sampling.{run_update-accepted, imucfg-remembered}

abbrev board : Board
board = record {
  device = logging;
  queue = [];
  pwm = record { period_ns = 8_849_558; duty0 = 50; duty1 = 0 };
  led = record {
    pattern = boot;
    step_idx = 0;
    boot_periods_left = 3;
    enabled = true;
    pin = true;
    timer = some 3;
  };
  switches = record { rail_on = true; rail_pin = true; drv_awake = true; sleep_pin = true };
  tput_rx_bytes = 0;
}

abbrev env : GattEnv
env = record { now = 5000; pwm_set = λ o. ok }

-- A start while a session runs.
start_refused : (on_write env logctl (1 ∷ []) 0 board).0 ≡ rejected value_not_allowed
unfolding on_write on_logctl_write
start_refused = refl

on_write-rejected_example : (on_write env logctl (1 ∷ []) 0 board).1 ≡ board
on_write-rejected_example =
    on_write-rejected env logctl (1 ∷ []) 0 board value_not_allowed start_refused (λ e. absurd (cc))

run_update-accepted_example :
    let sh = (session_imu_run_update 5000 logging).sh in
    configure (λ r v. ok) sh.cfg_odr sh.cfg_content sh.cfg_accel_fs sh.cfg_gyro_fs
    ≡ write_regs
        (λ r v. ok)
        ((reg_ctrl1_xl, ctrl1 sh.cfg_odr sh.cfg_content sh.cfg_accel_fs)
          ∷ (reg_ctrl2_g, ctrl2 sh.cfg_odr sh.cfg_content sh.cfg_gyro_fs)
          ∷ (reg_int1_ctrl, int1 sh.cfg_content)
          ∷ [])
run_update-accepted_example = run_update-accepted (λ r v. ok) 5000 logging refl booted-IsValid

request_allowed : imucfg_allowed (10 ∷ 1 ∷ 2 ∷ 3 ∷ []) ≡ true
unfolding imucfg_allowed
request_allowed = refl

imucfg-remembered_example :
    let s' = imucfg_settings (10 ∷ 1 ∷ 2 ∷ 3 ∷ []) 9000 booted in
    IsValid s'
    × (settings_get s' imu_odr_code ≡ 10)
    × (settings_get s' imu_content ≡ 1)
    × (settings_get s' imu_accel_fs ≡ 2)
    × (settings_get s' imu_gyro_fs ≡ 3)
    × (settings_get s' preview_hz ≡ min 9000 6660)
imucfg-remembered_example =
    imucfg-remembered (10 ∷ 1 ∷ 2 ∷ 3 ∷ []) 9000 booted booted-IsValid request_allowed

abbrev read_env : ReadEnv
read_env = record {
  now = 5000;
  major = 1;
  minor = 2;
  patchlevel = 3;
  reset_cause = 1;
  target_mv = 3100;
  measured_mv = 3090;
  errno_byte = λ s. 0;
}
