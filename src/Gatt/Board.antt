-- ===== src/Gatt/Board.antt =====
-- What the handlers of src/ble/ble_interface.c act on.
use moamoa_caterpillar_firmw.Base.{ℕ, List}
use moamoa_caterpillar_firmw.Errno.{Status}
use moamoa_caterpillar_firmw.Drivers.Pwm.{Pwm, Output}
use moamoa_caterpillar_firmw.Drivers.Led.{Led}
use moamoa_caterpillar_firmw.Drivers.Switches.{Switches}
use moamoa_caterpillar_firmw.Device.Session.{Device}
use moamoa_caterpillar_firmw.Device.Commands.{Command}

pub record Board : Type 0 where
  pub device : Device
  pub queue : List Command
  pub pwm : Pwm
  pub led : Led
  pub switches : Switches
  pub tput_rx_bytes : ℕ

-- What a handler finds: the uptime in milliseconds, and what `pwm_set` returns.
pub record GattEnv : Type 0 where
  pub now : ℕ
  pub pwm_set : Output → Status

pub data AttError : Type 0 where
  invalid_offset value_not_allowed unlikely : AttError

-- The result of a write handler: the length, or BT_GATT_ERR of an error.
pub data AttResult : Type 0 where
  accepted : ℕ → AttResult
  rejected : AttError → AttResult
