-- ===== src/Gatt/Reads.antt =====
-- src/ble/ble_interface.c: what the read handlers put together. The target voltage of max5419.c,
-- which is computed in floating point, the version, the reset cause, and the errno's number as a
-- byte are parameters.
use moamoa_caterpillar_firmw.Base.{
  ℕ, ◌+◌, ◌/◌, Bool, true, false, ◌&&◌, List, [], ◌∷◌, ◌++◌, if◌then◌else◌, ◌==◌, u8, u32, min,
  le16, le32, length,
}
use moamoa_caterpillar_firmw.Errno.{Status}
use moamoa_caterpillar_firmw.Flash.{FlashDevice}
use moamoa_caterpillar_firmw.Imu.Shared.{Shared, imu_shared_magic}
use moamoa_caterpillar_firmw.Imu.Pump.{imu_pump_overrun}
use moamoa_caterpillar_firmw.Settings.Registry.{robot_id}
use moamoa_caterpillar_firmw.Settings.Store.{settings_get}
use moamoa_caterpillar_firmw.Log.Entry.{data_capacity, max_sessions}
use moamoa_caterpillar_firmw.Log.Api.{imu_log_detached, imu_log_bytes_stored, imu_log_policy}
use moamoa_caterpillar_firmw.Log.Sessions.{Session, imu_log_session_list}
use moamoa_caterpillar_firmw.Drivers.Pwm.{drv_pwm_get_frequency, drv_pwm_get_duty}
use moamoa_caterpillar_firmw.Device.Session.{session_wall_now}
use moamoa_caterpillar_firmw.Gatt.Board.{Board}

pub record ReadEnv : Type 0 where
  pub now : ℕ
  pub major : ℕ
  pub minor : ℕ
  pub patchlevel : ℕ
  pub reset_cause : ℕ
  pub target_mv : ℕ
  pub measured_mv : ℕ  -- 0 if the measurement failed
  pub errno_byte : Status → ℕ

abbrev pub flag : Bool → ℕ
flag true = 1
flag false = 0

-- `IMU_SHARED->magic == IMU_SHARED_MAGIC`
abbrev pub is_up : Shared → Bool
is_up sh = sh.magic == imu_shared_magic

-- The packet of `on_status_read`.
unfoldable pub status_packet : ReadEnv → Board → List ℕ
status_packet env b =
    let d = b.device in
    (3 ∷ env.major ∷ env.minor ∷ env.patchlevel ∷ le16 (drv_pwm_get_frequency b.pwm))
    ++ (drv_pwm_get_duty b.pwm 0 ∷ drv_pwm_get_duty b.pwm 1 ∷ le16 env.target_mv)
    ++ le16 (min env.measured_mv 65_535)
    ++ (flag b.switches.rail_on
        ∷ flag b.switches.drv_awake
        ∷ flag (is_up d.sh && d.sh.imu_ok)
        ∷ flag b.led.enabled
        ∷ le32 (u32 (env.now / 1000)))
    ++ le32 env.reset_cause
    ++ le32 (if is_up d.sh then d.sh.flpr_version else 0)
    ++ (d.sh.cfg_odr
        ∷ d.sh.cfg_content
        ∷ flag d.log.active
        ∷ (imu_log_policy + (if imu_log_detached d.log then 2 else 0))
        ∷ le32 (imu_log_bytes_stored d.log))
    ++ le32 data_capacity
    ++ le32 (imu_pump_overrun d.sh)

-- `on_imucfg_read`
unfoldable pub imucfg_packet : ReadEnv → Board → List ℕ
imucfg_packet env b =
    let sh = b.device.sh in
    (sh.cfg_odr
      ∷ sh.cfg_content
      ∷ sh.cfg_accel_fs
      ∷ sh.cfg_gyro_fs
      ∷ flag (sh.cfg_applied == sh.cfg_seq)
      ∷ env.errno_byte sh.cfg_status
      ∷ b.device.stream.decim
      ∷ 0
      ∷ le32 sh.overrun)

-- `on_logctl_read`
unfoldable pub logctl_packet : Board → List ℕ
logctl_packet b =
    let d = b.device in
    (flag d.log.active ∷ imu_log_policy ∷ 0 ∷ 0 ∷ le32 (imu_log_bytes_stored d.log))
    ++ le32 data_capacity
    ++ le32 d.log.cur_count
    ++ le32 (imu_pump_overrun d.sh)

-- `on_time_read`, `on_tput_read`, `on_led_read`, `on_robotid_read`
unfoldable pub time_packet : ReadEnv → Board → List ℕ
time_packet env b = le32 (session_wall_now env.now b.device)

unfoldable pub tput_packet : Board → List ℕ
tput_packet b = le32 b.tput_rx_bytes

unfoldable pub led_packet : Board → List ℕ
led_packet b = flag b.led.enabled ∷ []

unfoldable pub robotid_packet : Board → List ℕ
robotid_packet b = u8 (settings_get b.device.settings robot_id) ∷ []

-- The loop of `on_dir_read` over the sessions.
unfoldable pub session_bytes : Session → List ℕ
session_bytes s =
    le32 s.seq
    ++ le32 s.wall_start
    ++ le32 s.rec_count
    ++ s.odr_code ∷ s.content ∷ s.accel_fs ∷ s.gyro_fs ∷ []

unfoldable pub sessions_bytes : List Session → List ℕ
unfolding session_bytes
sessions_bytes [] = []
sessions_bytes (s ∷ ss) = session_bytes s ++ sessions_bytes ss

unfoldable pub dir_packet : FlashDevice → Board → List ℕ
unfolding sessions_bytes
dir_packet fl b =
    let list = imu_log_session_list fl b.device.log max_sessions in
    (length list ∷ 0 ∷ 0 ∷ 0 ∷ []) ++ sessions_bytes list
