-- ===== src/Device/Tests.antt =====
-- Runs of the session policy and of the commands: src/app/session.c and src/app/device_cmd.c.
use moamoa_caterpillar_firmw.Base.{◌≡◌, refl, true, false, ap, u8}
use moamoa_caterpillar_firmw.Errno.{Status, ok}
use moamoa_caterpillar_firmw.Flash.{patch}
use moamoa_caterpillar_firmw.Flash.Ideal.{ideal}
use moamoa_caterpillar_firmw.Settings.Registry.{imu_content}
use moamoa_caterpillar_firmw.Settings.Store.{settings_get}
use moamoa_caterpillar_firmw.Log.Entry.{entry_write, entry_bytes, session_read}
use moamoa_caterpillar_firmw.Log.State.{Log, dir_refresh_current}
use moamoa_caterpillar_firmw.Log.Writer.{writer_run}
use moamoa_caterpillar_firmw.Log.Api.{
  imu_log_detached, imu_log_mark_detached, imu_log_start, imu_log_stop,
}
use moamoa_caterpillar_firmw.Log.Scenario.{started}
use moamoa_caterpillar_firmw.Device.Session.{session_imu_demand}
use moamoa_caterpillar_firmw.Device.Commands.{start, erase, log_op, CommandEnv, execute}
use moamoa_caterpillar_firmw.Device.Arbiter.{Arbitrated, execute-Arbitrated, erase-leaves_running}
use moamoa_caterpillar_firmw.Device.Detached.{late_mark-detaches}
use moamoa_caterpillar_firmw.Device.Scenario.{booted, booted-IsValid, logging, logging-Arbitrated}

abbrev env : CommandEnv
env = record { rounds = 10; now = 5000; fw_version = 1; set_voltage = λ mv. ok }

execute-Arbitrated_example : Arbitrated (execute ideal env (log_op start) logging)
execute-Arbitrated_example =
    execute-Arbitrated ideal env (log_op start) logging refl booted-IsValid logging-Arbitrated
      (λ e. absurd (cc))

erase-leaves_running_example :
    let d' = execute ideal env (log_op erase) logging in
    (session_imu_demand d' ≡ false) × (d'.sh.cfg_content ≡ u8 (settings_get booted imu_content))
erase-leaves_running_example = erase-leaves_running ideal env logging logging-Arbitrated refl refl

-- The start of session 2 behind a mark that came too late.
abbrev restarted : Status × Log
restarted = imu_log_start ideal 0 booted (imu_log_mark_detached (imu_log_stop ideal 0 started))

restarted_ok : restarted.0 ≡ ok
unfolding imu_log_start imu_log_mark_detached imu_log_stop writer_run dir_refresh_current
    session_read patch entry_bytes entry_write
restarted_ok = refl

late_mark-detaches_example : imu_log_detached restarted.1 ≡ true
late_mark-detaches_example =
    late_mark-detaches ideal 0 0 booted started restarted.1
      (ap (λ st. (st, restarted.1)) restarted_ok)
