-- ===== src/Device/Session.antt =====
-- src/app/session.c: the wall clock, the arbiter of the sensor, and the life of a log session.
use moamoa_caterpillar_firmw.Base.{
  ℕ, ◌+◌, ◌/◌, Bool, true, false, not, ◌||◌, List, [], ◌∷◌, ◌++◌, if◌then◌else◌, ◌==◌, u8, u32,
  sub32,
}
use moamoa_caterpillar_firmw.Flash.{FlashDevice}
use moamoa_caterpillar_firmw.Imu.Shared.{Shared, imu_shared_magic}
use moamoa_caterpillar_firmw.Settings.Registry.{
  imu_odr_code, imu_content, imu_accel_fs, imu_gyro_fs,
}
use moamoa_caterpillar_firmw.Settings.Store.{Store, settings_get}
use moamoa_caterpillar_firmw.Log.State.{Log}
use moamoa_caterpillar_firmw.Log.Api.{imu_log_detached, imu_log_stop}
use moamoa_caterpillar_firmw.Stream.{Stream, update_decim, stream_enable}
use moamoa_caterpillar_firmw.Dump.Thread.{Request, dump_abort}

-- The modules' statics together, and the calls of `ble_conn_request_params` so far, with their
-- argument: `true` asks for the wide connection interval.
pub record Device : Type 0 where
  pub log : Log
  pub sh : Shared
  pub stream : Stream
  pub settings : Store
  pub dump : Request
  pub wall_epoch_at_boot : ℕ
  pub stream_active : Bool
  pub conn_params : List Bool

-- Uptimes are in milliseconds.
unfoldable pub session_time_sync : ℕ → ℕ → Device → Device
session_time_sync now epoch d = record d { wall_epoch_at_boot = sub32 epoch (u32 (now / 1000)) }

unfoldable pub session_wall_now : ℕ → Device → ℕ
session_wall_now now d =
    if d.wall_epoch_at_boot == 0 then 0 else u32 (d.wall_epoch_at_boot + u32 (now / 1000))

unfoldable pub session_imu_demand : Device → Bool
session_imu_demand d = d.stream_active || d.log.active

-- What `session_imu_run_update` asks the sampler for.
unfoldable pub wanted_content : Device → ℕ
unfolding session_imu_demand
wanted_content d = if session_imu_demand d then u8 (settings_get d.settings imu_content) else 0

unfoldable pub session_imu_run_update : ℕ → Device → Device
unfolding wanted_content
session_imu_run_update now d =
    if not (d.sh.magic == imu_shared_magic)
    then d
    else (let odr = u8 (settings_get d.settings imu_odr_code) in
        record d {
          sh = record d.sh {
            cfg_odr = odr;
            cfg_content = wanted_content d;
            cfg_accel_fs = u8 (settings_get d.settings imu_accel_fs);
            cfg_gyro_fs = u8 (settings_get d.settings imu_gyro_fs);
            cfg_seq = u32 (d.sh.cfg_seq + 1);
          };
          stream = update_decim odr d.log.active now d.stream;
        })

unfoldable pub session_set_stream_active : ℕ → Bool → Device → Device
unfolding session_imu_run_update
session_set_stream_active now active d =
    session_imu_run_update now (record d { stream_active = active })

unfoldable pub session_on_log_started : ℕ → Device → Device
unfolding session_imu_run_update
session_on_log_started now d =
    session_imu_run_update now (record d { conn_params = d.conn_params ++ true ∷ [] })

unfoldable pub session_on_log_stopped : ℕ → Device → Device
unfolding session_imu_run_update
session_on_log_stopped now d =
    session_imu_run_update now (record d { conn_params = d.conn_params ++ false ∷ [] })

-- `session_on_disconnect`; `rounds` is how many batches the writer gets done while the stop waits.
unfoldable pub session_on_disconnect : FlashDevice → ℕ → ℕ → Device → Device
unfolding session_imu_run_update
session_on_disconnect fl rounds now d =
    let d1 = record d {
      stream_active = false;
      stream = stream_enable d.sh.cfg_odr d.log.active now false d.stream;
      dump = dump_abort d.dump;
    } in
    session_imu_run_update now (
      if not (imu_log_detached d.log) then record d1 { log = imu_log_stop fl rounds d.log } else d1)
