-- ===== src/Dump/Tests.antt =====
-- Runs of the dump and of the messages: src/ble/ble_transport.c.
use moamoa_caterpillar_firmw.Base.{
  ℕ, ◌+◌, ◌-◌, ◌*◌, ◌%◌, refl, true, false, [], ◌∷◌, arith, tabulate, min, max, get_or, ap,
}
use moamoa_caterpillar_firmw.Errno.{ok}
use moamoa_caterpillar_firmw.Flash.{Read, got}
use moamoa_caterpillar_firmw.Flash.Ideal.{ideal, ideal-Works}
use moamoa_caterpillar_firmw.Log.State.{ring_floor}
use moamoa_caterpillar_firmw.Log.Reading.{imu_log_read_session}
use moamoa_caterpillar_firmw.Log.Contents.{history_byte, extend}
use moamoa_caterpillar_firmw.Log.ReadBack.{readable}
use moamoa_caterpillar_firmw.Log.Scenario.{
  nothing, first, entry, one_written, one_written-Holds, slot_0,
}
use moamoa_caterpillar_firmw.Dump.Notify.{notify_loop}
use moamoa_caterpillar_firmw.Dump.Thread.{Request, DumpEnv, serve}
use moamoa_caterpillar_firmw.Dump.Chunks.{Smooth, Complete, serve-Complete}
use moamoa_caterpillar_firmw.Dump.Sessions.{serve-session}
use moamoa_caterpillar_firmw.Dump.Messages.{Messages}
use moamoa_caterpillar_firmw.Dump.History.{Keeps}

abbrev calm : DumpEnv
calm = record {
  aborted = λ k. false;
  credit = λ k. true;
  calls = λ k i. ok;
  aborted_sending = λ k i. false;
}

calm-Smooth : Smooth calm
unfolding notify_loop
calm-Smooth = record { no_abort = λ k. refl; credits = λ k. refl; sent = λ k. refl }

abbrev request : Request
request = record { session = 1; off = 4; len = 1000; aborting = false; signalled = false }

-- A source of 500 bytes.
abbrev counting : ℕ → ℕ → Read
counting off want = got (tabulate (λ i. i % 256) (0 + off) (min want (500 - off)))

serve-Complete_example : Complete (λ i. i % 256) 0 500 4 1000 (serve counting calm request)
serve-Complete_example =
    serve-Complete counting calm (λ i. i % 256) 0 500 request calm-Smooth (λ off want. refl)
      (omega arith) (omega arith)

serve-session_example :
    Complete
      (history_byte (extend nothing 0 (first ∷ [])))
      (16 * max 0 (ring_floor 1))
      (readable ideal ideal-Works one_written (record entry { rec_count = 1 }))
      4
      1000
      (serve (imu_log_read_session ideal one_written 1) calm request)
serve-session_example =
    serve-session ideal ideal-Works calm one_written (extend nothing 0 (first ∷ [])) 0 entry request
      calm-Smooth one_written-Holds (omega arith) (omega arith) slot_0 refl
      (λ j e h. absurd (omega arith)) (omega arith) (omega arith) (omega arith)

abbrev silent : Messages
silent = record { t2_ring = λ i. 0; t2_head = 0; msgq = λ i. []; msgq_head = 0; msgq_tail = 0 }

silent-Keeps : Keeps [] silent
silent-Keeps = record { head_ok = refl; kept = λ i lt near. absurd (omega arith) }

-- Three bytes in the ring.
abbrev three : Messages
three = record silent { t2_ring = λ i. get_or (65 ∷ 66 ∷ 67 ∷ []) i 0; t2_head = 3 }

three-Keeps : Keeps (65 ∷ 66 ∷ 67 ∷ []) three
three-Keeps = record {
  head_ok = refl;
  kept = λ i lt near. ap (λ j. get_or (65 ∷ 66 ∷ 67 ∷ []) j 0) (omega arith);
}
