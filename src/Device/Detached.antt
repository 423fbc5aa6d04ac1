-- ===== src/Device/Detached.antt =====
-- Sessions that outlive the connection: `session_detached` of src/imu/imu_log.c, as
-- src/app/session.c and src/app/device_cmd.c use it.
use moamoa_caterpillar_firmw.Base.{
  ℕ, ◌≡◌, refl, sym, ◌∙◌, inl, inr, true, false, Bool-cases, arith, ap,
}
use moamoa_caterpillar_firmw.Errno.{Status, ok, err}
use moamoa_caterpillar_firmw.Flash.{Mem, FlashDevice}
use moamoa_caterpillar_firmw.Settings.Store.{Store}
use moamoa_caterpillar_firmw.Stream.{update_decim, stream_enable}
use moamoa_caterpillar_firmw.Dump.Thread.{dump_abort}
use moamoa_caterpillar_firmw.Log.State.{Log}
use moamoa_caterpillar_firmw.Log.Api.{
  imu_log_detached, imu_log_mark_detached, imu_log_start, imu_log_stop, open_session,
  opened_session,
}
use moamoa_caterpillar_firmw.Device.Session.{Device, session_imu_run_update, session_on_disconnect}
use moamoa_caterpillar_firmw.Device.Arbiter.{imu_log_stop-active, start-opens}

run_update-log : (now : ℕ) (d : Device) → (session_imu_run_update now d).log ≡ d.log
unfolding session_imu_run_update
run_update-log now d = ground arith

-- What the arbiter does not touch.
run_update-flows :
    (now : ℕ) (d : Device)
    → let d' = session_imu_run_update now d in
      (d'.stream_active ≡ d.stream_active)
      × (d'.stream.sink_on ≡ d.stream.sink_on)
      × (d'.dump ≡ d.dump)
unfolding session_imu_run_update update_decim
run_update-flows now d = ground arith

-- A disconnect ends a session that is not detached, leaves the log of a detached one as it is, and
-- ends the subscription and the dump in either case.
pub session_on_disconnect-closes :
    (fl : FlashDevice) (rounds now : ℕ) (d : Device)
    → let d' = session_on_disconnect fl rounds now d in
      (imu_log_detached d.log ≡ true → d'.log ≡ d.log)
      × (imu_log_detached d.log ≡ false → d'.log.active ≡ false)
      × (d'.stream_active ≡ false)
      × (d'.stream.sink_on ≡ false)
      × (d'.dump.aborting ≡ true)
unfolding session_on_disconnect dump_abort stream_enable
session_on_disconnect-closes fl rounds now d = elim (Bool-cases (imu_log_detached d.log)) [
  | inl kept ↦
      rw (kept, session_on_disconnect)
        (
          λ e. run_update-log now _,
          λ e. absurd (cc),
          (run_update-flows now _).0,
          (run_update-flows now _).1,
          ap (λ r. r.aborting) (run_update-flows now _).2,
        )
  | inr closed ↦
      rw (closed, session_on_disconnect)
        (
          λ e. absurd (cc),
          λ e. ap (λ l. l.active) (run_update-log now _) ∙ imu_log_stop-active fl rounds d.log,
          (run_update-flows now _).0,
          (run_update-flows now _).1,
          ap (λ r. r.aborting) (run_update-flows now _).2,
        )
]

opened_session-detached :
    (r : Status × Mem) (l l' : Log)
    → l.session_detached ≡ true
    → opened_session r l ≡ (ok, l')
    → imu_log_detached l' ≡ true
unfolding opened_session imu_log_detached
opened_session-detached (ok, mem') l l' marked e = ground (arith, marked, ap (λ r. r.1) e)
opened_session-detached (err e, mem') l l' marked h = absurd (cc)

-- The mark comes too late: a disconnect between the start of a detached session and its mark ends
-- the session, and the mark then stays behind; the next session that starts counts as detached from
-- its start on, although nobody asked for that, so that no disconnect ends it.
pub late_mark-detaches :
    (fl : FlashDevice) (rounds wall : ℕ) (settings : Store) (l l' : Log)
    → imu_log_start fl wall settings (imu_log_mark_detached (imu_log_stop fl rounds l)) ≡ (ok, l')
    → imu_log_detached l' ≡ true
unfolding imu_log_mark_detached open_session
late_mark-detaches fl rounds wall settings l l' started =
    opened_session-detached _ (open_session m) l' refl
      (sym (start-opens fl wall settings m (imu_log_stop-active fl rounds l)) ∙ started)
  where
    m : Log
    m = imu_log_mark_detached (imu_log_stop fl rounds l)
