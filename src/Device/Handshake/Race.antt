-- ===== src/Device/Handshake/Race.antt =====
-- Two threads in `session_imu_run_update` of src/app/session.c at once: the thread of the commands,
-- behind its decision, and the Bluetooth thread, which comes first.
use moamoa_caterpillar_firmw.Base.{ℕ, ◌≡◌, refl, true, false, arith}
use moamoa_caterpillar_firmw.Imu.Shared.{imu_shared_magic}
use moamoa_caterpillar_firmw.Device.Session.{
  Device, session_imu_demand, wanted_content, session_imu_run_update, session_set_stream_active,
}
use moamoa_caterpillar_firmw.Device.Handshake.{
  resting, decided, update_begin, update_step, update_steps,
}

begin-idle :
    (d : Device)
    → d.sh.magic ≡ imu_shared_magic
    → session_imu_demand d ≡ false
    → update_begin d ≡ decided 0
unfolding update_begin wanted_content
begin-idle d up idle = rw (up, idle) refl

-- The steps behind a decision, from whatever state: the decision is what the sampler is asked for.
late_steps-content :
    (now content : ℕ) (d : Device)
    → let r = update_steps 6 now d (decided content) in
      (r.0.sh.cfg_content ≡ content)
      × (r.0.stream_active ≡ d.stream_active)
      × (r.0.log ≡ d.log)
      × (r.1 ≡ resting)
unfolding update_steps update_step
late_steps-content now content d = (refl, refl, refl, refl)

set_stream-active :
    (now : ℕ) (d : Device) → (session_set_stream_active now true d).stream_active ≡ true
unfolding session_set_stream_active session_imu_run_update
set_stream-active now d = ground (arith)

-- A subscription gets lost: when nobody wants data, a thread has decided to power the sensor down, and
-- before its stores another one subscribes to the stream and does its whole update. Then the first
-- one's stores come last: the stream is subscribed, there is demand, and the sampler is asked for no
-- content at all.
pub late_update-powers_down :
    (now now' : ℕ) (d : Device)
    → d.sh.magic ≡ imu_shared_magic
    → session_imu_demand d ≡ false
    → let r = update_steps 6 now' (session_set_stream_active now true d) (update_begin d) in
      (session_imu_demand r.0 ≡ true) × (r.0.sh.cfg_content ≡ 0) × (r.1 ≡ resting)
unfolding session_imu_demand
late_update-powers_down now now' d up idle =
    let d1 = session_set_stream_active now true d in
    let (content, active, log, done) = late_steps-content now' 0 d1 in
    rw (begin-idle d up idle) (rw (active, set_stream-active now d) refl, content, done)
