-- ===== src/Device/Clock.antt =====
-- The wall clock of src/app/session.c, and the bounded queue of src/app/device_cmd.c.
use moamoa_caterpillar_firmw.Base.{
  ℕ, ◌+◌, ◌-◌, ◌/◌, ◌≤◌, ◌<◌, ◌≡◌, ◌≢◌, ◌⊎◌, List, [], ◌∷◌, ◌++◌, arith, length, length-append, u32,
}
use moamoa_caterpillar_firmw.Errno.{ok, err, enomsg}
use moamoa_caterpillar_firmw.Device.Session.{Device, session_time_sync, session_wall_now}
use moamoa_caterpillar_firmw.Device.Commands.{Command, cmd_queue_depth, device_cmd_submit}

-- After the host gave the time, the clock runs on from it: it shows the epoch given and the seconds
-- of uptime since, modulo 2 ^ 32, unless the epoch given is the uptime itself, which stands for a
-- clock never set.
pub session_wall_now-sync :
    (epoch synced now : ℕ) (d : Device)
    → epoch < 4_294_967_296
    → synced ≤ now
    → u32 (synced / 1000) ≢ epoch
    → session_wall_now now (session_time_sync synced epoch d)
      ≡ u32 (epoch + (now / 1000 - synced / 1000))
unfolding session_wall_now session_time_sync
session_wall_now-sync epoch synced now d fits later other = ground arith

-- A command is put behind the others as long as fewer than eight wait; then it is refused, and the
-- queue stays as it is. So the queue never holds more than eight.
pub device_cmd_submit-bounded :
    (cmd : Command) (queue : List Command)
    → length queue ≤ cmd_queue_depth
    → let (st, queue') = device_cmd_submit cmd queue in
      (length queue' ≤ cmd_queue_depth)
      × (((st ≡ ok) × (queue' ≡ queue ++ cmd ∷ []))
          ⊎ ((st ≡ err enomsg) × (queue' ≡ queue) × (length queue ≡ cmd_queue_depth)))
unfolding device_cmd_submit
device_cmd_submit-bounded cmd queue h = ground (arith, length-append {0} queue (cmd ∷ []))
