-- ===== src/App/Boot.antt =====
-- src/app/app.c: `app_init`, over all parts together. What the calls of Zephyr return while they start
-- is a record of the environment.
use moamoa_caterpillar_firmw.Base.{
  ℕ, Bool, true, false, List, Option, none, some, ◌==◌, if◌then◌else◌, ◌+◌,
}
use moamoa_caterpillar_firmw.Errno.{Status, ok, err}
use moamoa_caterpillar_firmw.Flash.{FlashDevice}
use moamoa_caterpillar_firmw.Settings.Registry.{motor_freq_hz, motor_vdc_mv, led_enabled}
use moamoa_caterpillar_firmw.Settings.Store.{Store, settings_store_init, settings_get}
use moamoa_caterpillar_firmw.Log.Api.{imu_log_init}
use moamoa_caterpillar_firmw.Imu.Launch.{Vpr, flpr_launch}
use moamoa_caterpillar_firmw.Dump.Messages.{Messages, ble_msg}
use moamoa_caterpillar_firmw.Drivers.Pwm.{
  Pwm, Output, drv_pwm_init, drv_pwm_set_duty, drv_pwm_set_frequency,
}
use moamoa_caterpillar_firmw.Drivers.Led.{
  Led, drv_led_init, drv_led_blink_start, drv_led_set_enabled,
}
use moamoa_caterpillar_firmw.Drivers.Switches.{
  Switches, drv_stbb1_apur_init, drv_drv8212_init, drv_vdc_sense_init,
}
use moamoa_caterpillar_firmw.Drivers.Digipot.{Digipot, max5419_init}
use moamoa_caterpillar_firmw.Drivers.Voltage.{Float, whole, max5419_set_voltage}
use moamoa_caterpillar_firmw.Device.Session.{Device}
use moamoa_caterpillar_firmw.Gatt.Board.{Board}
use moamoa_caterpillar_firmw.Gatt.Link.{Link, Chip, ble_interface_init}
mod Wiper
mod Idle
mod Tests

-- What the calls find and return. `reset_cause` is that of `hwinfo_get_reset_cause`, if it succeeds;
-- `stamp` and `boot_text` are what `snprintf` makes of the boot message.
pub record BootEnv : Type 0 where
  pub reset_cause : Option ℕ
  pub crc32 : List ℕ → ℕ
  pub fl : FlashDevice
  pub fw_version : ℕ
  pub flpr_image : List ℕ
  pub led_ready : Bool
  pub led_configured : Status
  pub adc_ready : Bool
  pub adc_set_up : Status
  pub i2c_ready : Bool
  pub i2c_write : ℕ → Status
  pub rail_ready : Bool
  pub rail_configured : Status
  pub drv_ready : Bool
  pub drv_configured : Status
  pub pwm_ready : Bool
  pub pwm_set : Output → Status
  pub chip : Chip
  pub bt_enable : Status
  pub adv_start : Status
  pub stamp : List ℕ → List ℕ
  pub boot_text : List ℕ

-- The statics of all parts.
pub record Machine : Type 0 where
  pub board : Board
  pub digipot : Digipot
  pub vpr : Vpr
  pub link : Link
  pub messages : Messages
  pub reset_cause : ℕ

module _ {ℓ} (W : Type ℓ) ⦃f : Float W⦄ (env : BootEnv) where
  -- `max5419_init() != 0 || max5419_set_voltage(vdc_v) != 0`
  unfoldable pub boot_voltage : Store → Digipot → Digipot
  boot_voltage s d =
      let vdc_v : W = f.div (whole (settings_get s motor_vdc_mv)) (whole 1000) in
      let found = max5419_init env.i2c_write env.i2c_ready d in
      elim found.0 [ err e ↦ found.1 | ok ↦ (max5419_set_voltage env.i2c_write vdc_v found.1).1 ]

  -- The rail, the motor driver's pin and the drive waveform.
  unfoldable pub boot_switches : Switches → Switches
  boot_switches s =
      (drv_drv8212_init env.drv_ready env.drv_configured
        (drv_stbb1_apur_init env.rail_ready env.rail_configured s).1).1

  unfoldable pub boot_waveform : Store → Pwm → Pwm
  boot_waveform s p =
      (drv_pwm_set_frequency env.pwm_set (settings_get s motor_freq_hz)
        (drv_pwm_set_duty env.pwm_set 0 50 p).2).2

  -- The LED from `drv_led_init` on; nothing in between touches it.
  unfoldable pub boot_led : Store → Led → Led
  boot_led s l =
      let l1 = drv_led_blink_start (drv_led_init env.led_ready env.led_configured l).1 in
      if settings_get s led_enabled == 0 then drv_led_set_enabled false l1 else l1

  -- `app_init`. The results of the initialisations of the LED, the voltage sense, the PWM, the log and
  -- the Bluetooth service are only logged, and `drv_pwm_init` changes no static.
  unfoldable pub app_init : Machine → Machine
  unfolding boot_voltage boot_switches boot_waveform boot_led
  app_init m =
      let d0 = m.board.device in
      let s = settings_store_init env.crc32 env.fl d0.log.mem d0.settings in
      let d = record d0 { settings = s; log = (imu_log_init env.fl env.fw_version d0.log).1 } in
      record {
        board = record m.board {
          device = d;
          switches = boot_switches m.board.switches;
          pwm = boot_waveform s m.board.pwm;
          led = boot_led s m.board.led;
        };
        digipot = boot_voltage s m.digipot;
        vpr = flpr_launch env.flpr_image m.vpr;
        link = (ble_interface_init env.chip env.bt_enable env.adv_start d m.link).1;
        messages = ble_msg env.stamp env.boot_text m.messages;
        reset_cause = elim env.reset_cause [ none ↦ m.reset_cause | some cause ↦ cause ];
      }
