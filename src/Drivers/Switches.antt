-- ===== src/Drivers/Switches.antt =====
-- src/drivers/driver_stbb1_apur.c, driver_drv8212.c and driver_vdc_sense.c: the motor rail, the
-- motor driver's sleep pin, and the measured voltage. What Zephyr's GPIO and ADC calls return are
-- parameters.
use moamoa_caterpillar_firmw.Base.{ℕ, ◌*◌, Bool, false, not, if◌then◌else◌}
use moamoa_caterpillar_firmw.Errno.{Errno, Status, ok, err, enodev}

-- The statics `rail_on` and `drv_awake`, and the levels of their pins.
pub record Switches : Type 0 where
  pub rail_on : Bool
  pub rail_pin : Bool
  pub drv_awake : Bool
  pub sleep_pin : Bool

unfoldable pub drv_stbb1_apur_init : Bool → Status → Switches → Status × Switches
drv_stbb1_apur_init is_ready configured s =
    if not is_ready then (err enodev, s) else elim configured [
      | err e ↦ (err e, s)
      | ok ↦ (ok, record s { rail_pin = false; rail_on = false })
    ]

unfoldable pub drv_stbb1_apur_set : Bool → Switches → Switches
drv_stbb1_apur_set enable s = record s { rail_pin = enable; rail_on = enable }

unfoldable pub drv_drv8212_init : Bool → Status → Switches → Status × Switches
drv_drv8212_init is_ready configured s = if not is_ready then (err enodev, s) else elim configured [
  | err e ↦ (err e, s)
  | ok ↦ (ok, record s { sleep_pin = false; drv_awake = false })
]

unfoldable pub drv_drv8212_set : Bool → Switches → Switches
drv_drv8212_set awake s = record s { sleep_pin = awake; drv_awake = awake }

-- `drv_vdc_sense_init`, for what `adc_channel_setup_dt` returns.
unfoldable pub drv_vdc_sense_init : Bool → Status → Status
drv_vdc_sense_init is_ready set_up = if not is_ready then err enodev else set_up

-- A signed number of millivolts, and a result with one.
pub data Millivolts : Type 0 where
  above : ℕ → Millivolts
  below : ℕ → Millivolts

pub data Measured : Type 0 where
  measured : ℕ → Measured
  not_measured : Errno → Measured

-- `drv_vdc_sense_read_mv`, for what the read and the conversion return.
unfoldable pub drv_vdc_sense_read_mv : Status → Status → Millivolts → Measured
drv_vdc_sense_read_mv (err e) conversion mv = not_measured e
drv_vdc_sense_read_mv ok (err e) mv = not_measured e
drv_vdc_sense_read_mv ok ok (above v) = measured (v * 2)
drv_vdc_sense_read_mv ok ok (below v) = measured 0
