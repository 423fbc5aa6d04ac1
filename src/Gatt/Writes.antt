-- ===== src/Gatt/Writes.antt =====
-- src/ble/ble_interface.c: the write handlers.
use moamoa_caterpillar_firmw.Base.{
  ℕ, ◌+◌, ◌/◌, Bool, not, ◌&&◌, ◌||◌, List, if◌then◌else◌, ltb, leb, ◌==◌, u32, length, get_or,
  get_le16, get_le32,
}
use moamoa_caterpillar_firmw.Errno.{Status, ok, err}
use moamoa_caterpillar_firmw.Imu.Shared.{imu_shared_magic, imu_odr_12hz5, imu_odr_6660hz}
use moamoa_caterpillar_firmw.Settings.Registry.{
  motor_freq_hz, imu_odr_code, imu_content, imu_accel_fs, imu_gyro_fs, preview_hz, led_enabled,
  robot_id,
}
use moamoa_caterpillar_firmw.Settings.Store.{Store, settings_set, settings_max}
use moamoa_caterpillar_firmw.Stream.{ble_stream_set_preview, stream_enable}
use moamoa_caterpillar_firmw.Dump.Thread.{dump_request}
use moamoa_caterpillar_firmw.Drivers.Pwm.{Pwm, drv_pwm_set_frequency, freq_min_hz, freq_max_hz}
use moamoa_caterpillar_firmw.Drivers.Led.{drv_led_set_enabled}
use moamoa_caterpillar_firmw.Drivers.Switches.{drv_stbb1_apur_set, drv_drv8212_set}
use moamoa_caterpillar_firmw.Device.Session.{
  Device, session_time_sync, session_imu_run_update, session_set_stream_active,
}
use moamoa_caterpillar_firmw.Device.Commands.{
  LogOp, stop, start, erase, start_detached, other_op, Command, set_volt_mv, log_op,
  device_cmd_submit,
}
use moamoa_caterpillar_firmw.Gatt.Board.{
  Board, GattEnv, invalid_offset, value_not_allowed, unlikely, AttResult, accepted, rejected,
}

abbrev pub vout_min_mv : ℕ
vout_min_mv = 750

abbrev pub vout_max_mv : ℕ
vout_max_mv = 4200

-- `settings_set` on the device's store.
abbrev pub remember : ℕ → ℕ → Device → Device
remember id value d = record d { settings = settings_set d.settings id value }

-- The end of `on_freq_write`, for the result of `drv_pwm_set_frequency`.
unfoldable pub freq_set : ℕ → Status → Pwm → Board → AttResult × Board
freq_set hz (err e) p b = (rejected unlikely, record b { pwm = p })
freq_set hz ok p b = (accepted 2, record b { pwm = p; device = remember motor_freq_hz hz b.device })

unfoldable pub on_freq_write : GattEnv → List ℕ → ℕ → Board → AttResult × Board
unfolding freq_set
on_freq_write env buf offset b =
    if not (length buf == 2) || not (offset == 0)
    then (rejected invalid_offset, b)
    else (let hz = get_le16 buf 0 in
        if ltb hz freq_min_hz || ltb freq_max_hz hz
        then (rejected value_not_allowed, b)
        else (let r = drv_pwm_set_frequency env.pwm_set hz b.pwm in freq_set hz r.0 r.2 b))

-- `device_cmd_submit` and the result of the handler.
unfoldable pub submitted : ℕ → Status × List Command → Board → AttResult × Board
submitted len (err e, queue) b = (rejected unlikely, b)
submitted len (ok, queue) b = (accepted len, record b { queue = queue })

unfoldable pub on_volt_write : List ℕ → ℕ → Board → AttResult × Board
unfolding submitted
on_volt_write buf offset b =
    if not (length buf == 2) || not (offset == 0)
    then (rejected invalid_offset, b)
    else (let mv = get_le16 buf 0 in
        if ltb mv vout_min_mv || ltb vout_max_mv mv
        then (rejected value_not_allowed, b)
        else submitted 2 (device_cmd_submit (set_volt_mv mv) b.queue) b)

-- `on != 0` of the first byte.
abbrev pub is_on : List ℕ → Bool
is_on buf = not (get_or buf 0 0 == 0)

-- The tests of the handlers of one byte that is 0 or 1, and what follows them.
unfoldable pub one_bit : List ℕ → ℕ → Board → Board → AttResult × Board
one_bit buf offset b b' =
    if not (length buf == 1) || not (offset == 0)
    then (rejected invalid_offset, b)
    else (if ltb 1 (get_or buf 0 0) then (rejected value_not_allowed, b) else (accepted 1, b'))

unfoldable pub on_rail_write : List ℕ → ℕ → Board → AttResult × Board
unfolding one_bit
on_rail_write buf offset b =
    one_bit buf offset b (record b { switches = drv_stbb1_apur_set (is_on buf) b.switches })

unfoldable pub on_drv_write : List ℕ → ℕ → Board → AttResult × Board
unfolding one_bit
on_drv_write buf offset b =
    one_bit buf offset b (record b { switches = drv_drv8212_set (is_on buf) b.switches })

unfoldable pub on_led_write : List ℕ → ℕ → Board → AttResult × Board
unfolding one_bit
on_led_write buf offset b = one_bit buf offset b (record b {
  led = drv_led_set_enabled (is_on buf) b.led;
  device = remember led_enabled (get_or buf 0 0) b.device;
})

unfoldable pub on_tput_write : List ℕ → Board → AttResult × Board
on_tput_write buf b =
    (accepted (length buf), record b { tput_rx_bytes = u32 (b.tput_rx_bytes + length buf) })

unfoldable pub on_time_write : GattEnv → List ℕ → ℕ → Board → AttResult × Board
on_time_write env buf offset b =
    if not (length buf == 4) || not (offset == 0)
    then (rejected invalid_offset, b)
    else (let epoch = get_le32 buf 0 in
        if epoch == 0
        then (rejected value_not_allowed, b)
        else (accepted 4, record b { device = session_time_sync env.now epoch b.device }))

-- `content & ~(IMU_CONTENT_ACCEL | IMU_CONTENT_GYRO)` is `content / 4`.
unfoldable pub imucfg_allowed : List ℕ → Bool
imucfg_allowed buf =
    let odr = get_or buf 0 0 in
    let content = get_or buf 1 0 in
    not (
      ltb odr imu_odr_12hz5
      || ltb imu_odr_6660hz odr
      || content == 0
      || not (content / 4 == 0)
      || ltb 3 (get_or buf 2 0)
      || ltb 3 (get_or buf 3 0))

-- The preview cap of the optional bytes, the five settings, and the arbiter.
unfoldable pub imucfg_settings : List ℕ → ℕ → Store → Store
imucfg_settings buf preview s =
    settings_set
      (settings_set
        (settings_set
          (settings_set (settings_set s imu_odr_code (get_or buf 0 0)) imu_content (get_or buf 1 0))
          imu_accel_fs (get_or buf 2 0))
        imu_gyro_fs (get_or buf 3 0))
      preview_hz preview

unfoldable pub configured : GattEnv → List ℕ → Device → Device
unfolding imucfg_settings
configured env buf d =
    let preview = if leb 6 (length buf) then get_le16 buf 4 else 0 in
    session_imu_run_update env.now (record d {
      stream = ble_stream_set_preview d.sh.cfg_odr d.log.active env.now preview d.stream;
      settings = imucfg_settings buf preview d.settings;
    })

unfoldable pub on_imucfg_write : GattEnv → List ℕ → ℕ → Board → AttResult × Board
unfolding imucfg_allowed configured
on_imucfg_write env buf offset b =
    if ltb (length buf) 4 || not (offset == 0)
    then (rejected invalid_offset, b)
    else (if not (imucfg_allowed buf)
        then (rejected value_not_allowed, b)
        else (if not (b.device.sh.magic == imu_shared_magic)
            then (rejected unlikely, b)
            else (accepted (length buf), record b { device = configured env buf b.device })))

-- BT_GATT_CCC_NOTIFY is 1.
unfoldable pub stream_ccc_changed : GattEnv → ℕ → Board → Board
stream_ccc_changed env value b =
    let on = value == 1 in
    let d = b.device in
    record b {
      device =
          session_set_stream_active env.now on
            (record d { stream = stream_enable d.sh.cfg_odr d.log.active env.now on d.stream });
    }

abbrev pub op_of_byte : ℕ → LogOp
op_of_byte byte =
    if byte == 0
    then stop
    else (if byte == 1
        then start
        else (if byte == 2 then erase else (if byte == 3 then start_detached else other_op byte)))

unfoldable pub on_logctl_write : List ℕ → ℕ → Board → AttResult × Board
unfolding submitted
on_logctl_write buf offset b =
    let op = get_or buf 0 0 in
    if ltb (length buf) 1 || not (offset == 0)
    then (rejected invalid_offset, b)
    else (if ltb 3 op || ((op == 1 || op == 3) && b.device.log.active)
        then (rejected value_not_allowed, b)
        else submitted (length buf) (device_cmd_submit (log_op (op_of_byte op)) b.queue) b)

unfoldable pub on_dump_write : List ℕ → ℕ → Board → AttResult × Board
on_dump_write buf offset b =
    let d = b.device in
    if not (length buf == 12) || not (offset == 0) then (rejected invalid_offset, b) else (
      accepted 12,
      record b {
        device = record d {
          dump = dump_request (get_le32 buf 0) (get_le32 buf 4) (get_le32 buf 8) d.dump;
        };
      },
    )

unfoldable pub on_robotid_write : List ℕ → ℕ → Board → AttResult × Board
on_robotid_write buf offset b =
    if not (length buf == 1) || not (offset == 0)
    then (rejected invalid_offset, b)
    else (if ltb (settings_max robot_id) (get_or buf 0 0)
        then (rejected value_not_allowed, b)
        else (accepted 1, record b { device = remember robot_id (get_or buf 0 0) b.device }))

-- The characteristics of the service that can be written.
pub data Written : Type 0 where
  freq volt rail drv tput time led imucfg logctl dump robotid : Written

unfoldable pub on_write : GattEnv → Written → List ℕ → ℕ → Board → AttResult × Board
on_write env freq buf offset b = on_freq_write env buf offset b
on_write env volt buf offset b = on_volt_write buf offset b
on_write env rail buf offset b = on_rail_write buf offset b
on_write env drv buf offset b = on_drv_write buf offset b
on_write env tput buf offset b = on_tput_write buf b
on_write env time buf offset b = on_time_write env buf offset b
on_write env led buf offset b = on_led_write buf offset b
on_write env imucfg buf offset b = on_imucfg_write env buf offset b
on_write env logctl buf offset b = on_logctl_write buf offset b
on_write env dump buf offset b = on_dump_write buf offset b
on_write env robotid buf offset b = on_robotid_write buf offset b
