-- ===== src/Device/Arbiter.antt =====
-- The arbiter of the sensor: src/app/session.c and src/app/device_cmd.c.
use moamoa_caterpillar_firmw.Base.{
  ℕ, ◌≡◌, refl, ap, sym, subst, ◌⊎◌, inl, inr, Bool, true, false, Bool-cases, Option-cases, some,
  ◌==◌, u8, arith,
}
use moamoa_caterpillar_firmw.Errno.{Status, ok, err, ebusy, Status-cases}
use moamoa_caterpillar_firmw.Flash.{Mem, FlashDevice}
use moamoa_caterpillar_firmw.Imu.Shared.{imu_shared_magic}
use moamoa_caterpillar_firmw.Settings.Registry.{
  SettingMeta, imu_content, motor_vdc_mv, meta_for, find_meta,
}
use moamoa_caterpillar_firmw.Settings.Store.{Store, settings_get, settings_set}
use moamoa_caterpillar_firmw.Settings.Ranges.{IsValid, settings_get-set}
use moamoa_caterpillar_firmw.Log.Entry.{session_read, entry_write}
use moamoa_caterpillar_firmw.Log.State.{Log, dir_refresh_current}
use moamoa_caterpillar_firmw.Log.Writer.{writer_run}
use moamoa_caterpillar_firmw.Log.Api.{
  imu_log_detached, imu_log_start, imu_log_stop, imu_log_erase, close_session, open_session,
  fresh_entry, opened_session,
}
use moamoa_caterpillar_firmw.Device.Session.{
  Device, session_imu_demand, wanted_content, session_imu_run_update, session_set_stream_active,
  session_on_log_started, session_on_log_stopped, session_on_disconnect,
}
use moamoa_caterpillar_firmw.Device.Commands.{
  LogOp, stop, start, erase, start_detached, other_op, Command, set_volt_mv, log_op, other_cmd,
  CommandEnv, started, execute_log, execute,
}

-- The sampler is asked for the sensors of the settings if a session runs or the live stream is
-- subscribed, and for none otherwise.
abbrev pub Arbitrated : Device → Type 0
Arbitrated d = d.sh.cfg_content ≡ wanted_content d

-- The sampler's core is up.
abbrev pub IsUp : Device → Type 0
IsUp d = (d.sh.magic == imu_shared_magic) ≡ true

run_update-Arbitrated : (now : ℕ) (d : Device) → IsUp d → Arbitrated (session_imu_run_update now d)
unfolding session_imu_run_update wanted_content session_imu_demand
run_update-Arbitrated now d up = ground (arith, up)

dir_refresh_current-active :
    (fl : FlashDevice) (closing : Bool) (l : Log)
    → (dir_refresh_current fl closing l).active ≡ l.active
unfolding dir_refresh_current
dir_refresh_current-active fl closing l = elim (Option-cases (session_read fl l.mem l.cur_slot)) [
  | inl e ↦ rw (e, dir_refresh_current) refl
  | inr (e, found) ↦ rw (found, dir_refresh_current) refl
]

close_session-active : (fl : FlashDevice) (l : Log) → (close_session fl l).active ≡ false
unfolding close_session
close_session-active fl l = elim (Bool-cases l.active) [
  | inl on ↦ ground (
    arith,
    on,
    dir_refresh_current-active fl true (record l { active = false; session_detached = false }),
  )
  | inr off ↦ ground (arith, off)
]

-- A stop leaves no session active, whatever the writer got done.
pub imu_log_stop-active :
    (fl : FlashDevice) (rounds : ℕ) (l : Log) → (imu_log_stop fl rounds l).active ≡ false
unfolding imu_log_stop
imu_log_stop-active fl rounds l = elim (Bool-cases l.active) [
  | inl on ↦ ground (arith, on, close_session-active fl (writer_run fl rounds l))
  | inr off ↦ ground (arith, off)
]

imu_log_erase-active :
    (fl : FlashDevice) (fw rounds : ℕ) (l : Log) → (imu_log_erase fl fw rounds l).active ≡ false
unfolding imu_log_erase
imu_log_erase-active fl fw rounds l = imu_log_stop-active fl rounds l

start-busy :
    (fl : FlashDevice) (wall : ℕ) (settings : Store) (l : Log)
    → l.active ≡ true
    → imu_log_start fl wall settings l ≡ (err ebusy, l)
unfolding imu_log_start
start-busy fl wall settings l on = ground (arith, on)

pub start-opens :
    (fl : FlashDevice) (wall : ℕ) (settings : Store) (l : Log)
    → l.active ≡ false
    → let l1 = open_session l in
      imu_log_start fl wall settings l
      ≡ opened_session (entry_write fl l1.mem l1.cur_slot (fresh_entry wall settings l1)) l1
unfolding imu_log_start
start-opens fl wall settings l off = ground (arith, off)

-- A start makes the session active, or it fails and leaves that as it was.
abbrev StartOk : Log → Status × Log → Type 0
StartOk l (ok, l') = l'.active ≡ true
StartOk l (err e, l') = l'.active ≡ l.active

opened_session-StartOk :
    (l l1 : Log) (r : Status × Mem) → l1.active ≡ l.active → StartOk l (opened_session r l1)
unfolding opened_session
opened_session-StartOk l l1 (ok, m) same = refl
opened_session-StartOk l l1 (err e, m) same = same

imu_log_start-StartOk :
    (fl : FlashDevice) (wall : ℕ) (settings : Store) (l : Log)
    → StartOk l (imu_log_start fl wall settings l)
unfolding imu_log_start open_session
imu_log_start-StartOk fl wall settings l = start_case (Bool-cases l.active)
  where
    start_case :
        (l.active ≡ true) ⊎ (l.active ≡ false) → StartOk l (imu_log_start fl wall settings l)
    start_case (inl on) = subst (StartOk l) (sym (start-busy fl wall settings l on)) refl
    start_case (inr off) =
        subst (StartOk l) (sym (start-opens fl wall settings l off))
          (opened_session-StartOk l (open_session l) _ refl)

session_on_disconnect-Arbitrated :
    (fl : FlashDevice) (rounds now : ℕ) (d : Device)
    → IsUp d
    → Arbitrated (session_on_disconnect fl rounds now d)
unfolding session_on_disconnect
session_on_disconnect-Arbitrated fl rounds now d up = elim (Bool-cases (imu_log_detached d.log)) [
  | inl kept ↦ rw kept (run_update-Arbitrated now _ up)
  | inr closed ↦ rw closed (run_update-Arbitrated now _ up)
]

-- Whatever the sampler was asked for before: after a change of the subscription, a start's or a
-- stop's notice, or a disconnect, it is asked for what the demand calls for.
pub session-Arbitrated :
    (fl : FlashDevice) (rounds now : ℕ) (active : Bool) (d : Device)
    → IsUp d
    → Arbitrated (session_set_stream_active now active d)
      × Arbitrated (session_on_log_started now d)
      × Arbitrated (session_on_log_stopped now d)
      × Arbitrated (session_on_disconnect fl rounds now d)
unfolding session_set_stream_active session_on_log_started session_on_log_stopped
session-Arbitrated fl rounds now active d up = (
  run_update-Arbitrated now _ up,
  run_update-Arbitrated now _ up,
  run_update-Arbitrated now _ up,
  session_on_disconnect-Arbitrated fl rounds now d up,
)

started-Arbitrated :
    (fl : FlashDevice) (env : CommandEnv) (detached : Bool) (r : Status × Log) (d : Device)
    → IsUp d
    → Arbitrated d
    → StartOk d.log r
    → Arbitrated (started fl env detached r d)
unfolding started session_on_log_started wanted_content session_imu_demand
started-Arbitrated fl env detached (ok, l) d up a s = run_update-Arbitrated env.now _ up
started-Arbitrated fl env detached (err e, l) d up a s = ground (arith, a, s)

erase-Arbitrated :
    (fl : FlashDevice) (env : CommandEnv) (d : Device)
    → Arbitrated d
    → d.log.active ≡ false
    → Arbitrated (execute_log fl env erase d)
unfolding execute_log wanted_content session_imu_demand
erase-Arbitrated fl env d a off =
    ground (arith, a, off, imu_log_erase-active fl env.fw_version env.rounds d.log)

execute_log-Arbitrated :
    (fl : FlashDevice) (env : CommandEnv) (op : LogOp) (d : Device)
    → IsUp d
    → Arbitrated d
    → (op ≡ erase → d.log.active ≡ false)
    → Arbitrated (execute_log fl env op d)
unfolding execute_log session_on_log_stopped
execute_log-Arbitrated fl env stop d up a h = run_update-Arbitrated env.now _ up
execute_log-Arbitrated fl env start d up a h =
    started-Arbitrated fl env false _ d up a (imu_log_start-StartOk fl _ d.settings d.log)
execute_log-Arbitrated fl env start_detached d up a h =
    started-Arbitrated fl env true _ d up a (imu_log_start-StartOk fl _ d.settings d.log)
execute_log-Arbitrated fl env erase d up a h = erase-Arbitrated fl env d a (h refl)
execute_log-Arbitrated fl env (other_op op) d up a h = a

abbrev voltage_entry : SettingMeta
voltage_entry = record { id = 2; def = 3100; min = 750; max = 4200 }

voltage_known : meta_for motor_vdc_mv ≡ some voltage_entry
unfolding meta_for find_meta
voltage_known = refl

-- The voltage is another setting.
content-set_voltage :
    (s : Store) (mv : ℕ)
    → IsValid s
    → settings_get (settings_set s motor_vdc_mv mv) imu_content ≡ settings_get s imu_content
content-set_voltage s mv v =
    settings_get-set s motor_vdc_mv mv imu_content voltage_entry v voltage_known

set_voltage-Arbitrated :
    (fl : FlashDevice) (env : CommandEnv) (mv : ℕ) (d : Device)
    → Arbitrated d
    → IsValid d.settings
    → Arbitrated (execute fl env (set_volt_mv mv) d)
unfolding execute wanted_content session_imu_demand
set_voltage-Arbitrated fl env mv d a v = elim (Status-cases (env.set_voltage mv)) [
  | inr (e, failed) ↦ rw (failed, execute) a
  | inl done ↦
      rw (done, execute, wanted_content, session_imu_demand, content-set_voltage d.settings mv v) a
]

-- A command keeps the sensor in step with the demand, if it was so before, unless it erases the
-- log during a session.
pub execute-Arbitrated :
    (fl : FlashDevice) (env : CommandEnv) (cmd : Command) (d : Device)
    → IsUp d
    → IsValid d.settings
    → Arbitrated d
    → (cmd ≡ log_op erase → d.log.active ≡ false)
    → Arbitrated (execute fl env cmd d)
unfolding execute
execute-Arbitrated fl env (set_volt_mv mv) d up v a h = set_voltage-Arbitrated fl env mv d a v
execute-Arbitrated fl env (log_op op) d up v a h =
    execute_log-Arbitrated fl env op d up a (λ e. h (ap log_op e))
execute-Arbitrated fl env (other_cmd type) d up v a h = a

-- An erase during a session leaves the sensor running for nobody: the session ends, nobody is
-- subscribed, there is no demand, and still the sampler is asked for the sensors of the settings.
pub erase-leaves_running :
    (fl : FlashDevice) (env : CommandEnv) (d : Device)
    → Arbitrated d
    → d.log.active ≡ true
    → d.stream_active ≡ false
    → let d' = execute fl env (log_op erase) d in
      (session_imu_demand d' ≡ false)
      × (d'.sh.cfg_content ≡ u8 (settings_get d.settings imu_content))
unfolding execute execute_log session_imu_demand wanted_content
erase-leaves_running fl env d a on off = (
  ground (arith, off, imu_log_erase-active fl env.fw_version env.rounds d.log),
  ground (arith, a, on),
)
