-- ===== src/Device/Commands.antt =====
-- src/app/device_cmd.c: the queue of the commands and what they do.
use moamoa_caterpillar_firmw.Base.{
  ℕ, Bool, true, false, List, [], ◌∷◌, ◌++◌, if◌then◌else◌, ltb, length,
}
use moamoa_caterpillar_firmw.Errno.{Status, ok, err, enomsg}
use moamoa_caterpillar_firmw.Flash.{FlashDevice}
use moamoa_caterpillar_firmw.Settings.Registry.{motor_vdc_mv}
use moamoa_caterpillar_firmw.Settings.Store.{settings_set}
use moamoa_caterpillar_firmw.Log.State.{Log}
use moamoa_caterpillar_firmw.Log.Api.{
  imu_log_start, imu_log_stop, imu_log_erase, imu_log_mark_detached,
}
use moamoa_caterpillar_firmw.Device.Session.{
  Device, session_wall_now, session_on_log_started, session_on_log_stopped,
}

-- DEVICE_LOG_OP_*; any other byte is `other_op`.
pub data LogOp : Type 0 where
  stop start erase start_detached : LogOp
  other_op : ℕ → LogOp

-- `struct device_cmd`; a type beyond the enum is `other_cmd`.
pub data Command : Type 0 where
  set_volt_mv : ℕ → Command
  log_op : LogOp → Command
  other_cmd : ℕ → Command

abbrev pub cmd_queue_depth : ℕ
cmd_queue_depth = 8

-- `device_cmd_submit`: `k_msgq_put` with K_NO_WAIT puts the command behind the others, and returns
-- -ENOMSG when the queue is full.
unfoldable pub device_cmd_submit : Command → List Command → Status × List Command
device_cmd_submit cmd queue =
    if ltb (length queue) cmd_queue_depth then (ok, queue ++ cmd ∷ []) else (err enomsg, queue)

-- What a command finds: how far the writer gets while a stop waits, the uptime, the firmware's
-- version, and what `max5419_set_voltage` returns for a voltage.
pub record CommandEnv : Type 0 where
  pub rounds : ℕ
  pub now : ℕ
  pub fw_version : ℕ
  pub set_voltage : ℕ → Status

module _ (fl : FlashDevice) (env : CommandEnv) where
  -- `imu_log_start(1) == 0`, and what follows it.
  unfoldable pub started : Bool → Status × Log → Device → Device
  started detached (err e, l) d = record d { log = l }
  started detached (ok, l) d =
      session_on_log_started env.now
        (record d { log = if detached then imu_log_mark_detached l else l })

  unfoldable pub execute_log : LogOp → Device → Device
  unfolding started
  execute_log stop d =
      session_on_log_stopped env.now (record d { log = imu_log_stop fl env.rounds d.log })
  execute_log start d =
      started false (imu_log_start fl (session_wall_now env.now d) d.settings d.log) d
  execute_log start_detached d =
      started true (imu_log_start fl (session_wall_now env.now d) d.settings d.log) d
  execute_log erase d = record d { log = imu_log_erase fl env.fw_version env.rounds d.log }
  execute_log (other_op op) d = d

  -- `execute`. The measured voltage is only logged.
  unfoldable pub execute : Command → Device → Device
  unfolding execute_log
  execute (set_volt_mv mv) d = elim (env.set_voltage mv) [
    | err e ↦ d
    | ok ↦ record d { settings = settings_set d.settings motor_vdc_mv mv }
  ]
  execute (log_op op) d = execute_log op d
  execute (other_cmd type) d = d

  -- A round of `cmd_thread`.
  unfoldable pub next_command : List Command → Device → List Command × Device
  unfolding execute
  next_command [] d = ([], d)
  next_command (cmd ∷ rest) d = (rest, execute cmd d)
