-- ===== src/Imu/Drdy/Tests.antt =====
-- Runs of the data-ready interrupt: flpr/src/driver_asm330lhh.c.
use moamoa_caterpillar_firmw.Base.{◌<◌, refl, true, false}
use moamoa_caterpillar_firmw.Errno.{ok, err, eio}
use moamoa_caterpillar_firmw.Imu.Drdy.{
  to_wait, waiting, scratch, resetting, Drdy, drdy_isr, new_data, wait_data, read_output,
  burst_read, scratch_read, sem_reset, waited, Reach, sample, reconfigure, scratched, reset, here,
  next,
}
use moamoa_caterpillar_firmw.Imu.Drdy.Lively.{Succeeds, Reach-lively}
use moamoa_caterpillar_firmw.Imu.Drdy.Stalls.{Stalled, failed_read-stalls}

abbrev idle : Drdy
idle = record { line = false; drdy_sem = 0; pc = waiting; delivered = 0 }

-- A configuration, and a sample behind it.
ready : Drdy
ready =
    new_data (sem_reset to_wait (scratch_read ok to_wait (record idle { pc = scratch to_wait })))

ready-Reach : Reach Succeeds ⊥ (Unit {0}) idle ready
unfolding ready scratch_read read_output sem_reset new_data drdy_isr
ready-Reach =
    next
      (next (next (next here (reconfigure to_wait tt refl)) (scratched ok to_wait refl refl))
        (reset to_wait refl))
      (sample tt)

Reach-lively_example : 0 < ready.drdy_sem
unfolding ready scratch_read read_output sem_reset new_data drdy_isr
Reach-lively_example = Reach-lively {s = idle} (λ high. absurd (cc)) ready-Reach refl refl

-- The read of that sample fails, and another one is made.
abbrev loaded : Drdy
loaded = record { line = true; drdy_sem = 1; pc = waiting; delivered = 6 }

failed_read-stalls_example : Stalled 6 (new_data (burst_read (err eio) (waited loaded)))
unfolding waited wait_data burst_read read_output
failed_read-stalls_example =
    failed_read-stalls eio loaded (new_data (burst_read (err eio) (waited loaded))) refl refl
      (next here (sample tt))

abbrev configuring : Drdy
configuring = record { line = false; drdy_sem = 0; pc = resetting to_wait; delivered = 6 }
