-- ===== src/App/Boot/Idle.antt =====
-- What a boot leaves, whatever the calls of src/app/app.c return.
use moamoa_caterpillar_firmw.Base.{◌≡◌, Bool, false, not, ◌&&◌, if◌then◌else◌, none}
use moamoa_caterpillar_firmw.Errno.{Status, is_err}
use moamoa_caterpillar_firmw.Settings.Registry.{motor_freq_hz}
use moamoa_caterpillar_firmw.Settings.Store.{settings_get}
use moamoa_caterpillar_firmw.Settings.Ranges.{IsValid}
use moamoa_caterpillar_firmw.Log.State.{Log}
use moamoa_caterpillar_firmw.Drivers.Pwm.{Pwm, drv_pwm_get_frequency}
use moamoa_caterpillar_firmw.Drivers.Waveform as Waveform
use moamoa_caterpillar_firmw.Drivers.Switches.{Switches}
use moamoa_caterpillar_firmw.Drivers.Voltage.{Float, IsFloat}
use moamoa_caterpillar_firmw.App.Boot.Wiper.{Wiper}
use moamoa_caterpillar_firmw.Device.Session.{session_imu_demand}
use moamoa_caterpillar_firmw.App.Boot.{BootEnv, Machine}

-- The statics as the C start-up code leaves them.
pub record Reset (m : Machine) : Type 0 where
  pub tap : m.digipot.cur_tap ≡ none
  pub waveform : Waveform.IsValid m.board.pwm
  pub duty1 : m.board.pwm.duty1 ≡ 0
  pub log : m.board.device.log.active ≡ false
  pub stream : m.board.device.stream_active ≡ false

-- What the initialisation of an output leaves of a level or of its record: low if the port is ready and
-- takes the configuration, else as it was.
abbrev pub low_if : Bool → Status → Bool → Bool
low_if is_ready configured before = if is_ready && not (is_err configured) then false else before

-- The rail's and the sleep pin's levels, and the statics that go with them.
abbrev pub IsOff : BootEnv → Switches → Switches → Type 0
IsOff env before s =
    (s.rail_pin ≡ low_if env.rail_ready env.rail_configured before.rail_pin)
    × (s.rail_on ≡ low_if env.rail_ready env.rail_configured before.rail_on)
    × (s.sleep_pin ≡ low_if env.drv_ready env.drv_configured before.sleep_pin)
    × (s.drv_awake ≡ low_if env.drv_ready env.drv_configured before.drv_awake)

module _ {ℓ} {W : Type ℓ} ⦃f : Float W⦄ (laws : IsFloat W) (env : BootEnv) where
  -- The drive is off, its waveform is primed at half duty, the wiper is set, the settings are valid,
  -- and nobody wants data of the sensor.
  pub record Idle (before m : Machine) : Type 0 where
    pub switches : IsOff env before.board.switches m.board.switches
    pub tap : Wiper laws env m.board.device.settings m.digipot
    pub settings : IsValid m.board.device.settings
    pub waveform : Waveform.IsValid m.board.pwm
    pub frequency :
        drv_pwm_get_frequency m.board.pwm ≡ settings_get m.board.device.settings motor_freq_hz
    pub duty0 : m.board.pwm.duty0 ≡ 50
    pub duty1 : m.board.pwm.duty1 ≡ 0
    pub demand : session_imu_demand m.board.device ≡ false
