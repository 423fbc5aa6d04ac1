-- ===== src/Recorder/Tests.antt =====
-- A record's way from the sampler to the flash: flpr/src/main.c, src/imu/imu_pump.c and
-- src/imu/imu_log.c.
use moamoa_caterpillar_firmw.Base.{◌≡◌, refl, arith, [], ◌∷◌}
use moamoa_caterpillar_firmw.Flash.Ideal.{ideal, ideal-Works}
use moamoa_caterpillar_firmw.Imu.Shared.{update}
use moamoa_caterpillar_firmw.Imu.Sampler.{producer_check, producer_step}
use moamoa_caterpillar_firmw.Imu.Pump.{pump_wake, pump_step}
use moamoa_caterpillar_firmw.Imu.Spsc.{
  sample_found, producer_moves, producer_at, pump_wakes, pump_moves, pump_at,
}
use moamoa_caterpillar_firmw.Imu.Tests.{at_boot, at_boot-Inv, first}
use moamoa_caterpillar_firmw.Stream.Tests.{running}
use moamoa_caterpillar_firmw.Log.Scenario.{nothing, started, started-StageOk, empty-Holds}
use moamoa_caterpillar_firmw.Recorder.{
  Recorder, looping, pump_drains, hand_to_log, hand_to_sink, writer_batch, sample, produce, wake,
  drain, call_log, call_sink, write, Reach, here, next,
}
use moamoa_caterpillar_firmw.Recorder.Recorded.{Recorded, Reach-Recorded}

abbrev waiting_for_data : Recorder
waiting_for_data = record {
  ring = at_boot;
  hand = looping;
  drained_total = 0;
  log = started;
  stream = running;
}

-- One record is found, published, taken, staged, written and given to the stream.
abbrev published : Recorder
published = record waiting_for_data {
  ring = pump_wakes (producer_moves (producer_moves (sample_found first at_boot)));
}

abbrev written : Recorder
written = hand_to_sink 7 (first ∷ []) (
    writer_batch ideal
      (hand_to_log (first ∷ []) (pump_drains (pump_drains (pump_drains published)))))

written-Reach : Reach ideal waiting_for_data written
unfolding sample_found producer_moves producer_at pump_wakes pump_moves pump_at producer_check
    producer_step pump_wake pump_step pump_drains hand_to_log writer_batch update
written-Reach =
    next
      (next
        (next
          (next
            (next
              (next
                (next (next (next (next here (sample first refl)) produce) produce)
                  (wake refl refl))
                (drain refl))
              (drain refl))
            (drain refl))
          (call_log (first ∷ []) refl))
        write)
      (call_sink 7 (first ∷ []) refl)

one_taken : written.ring.consumed ≡ 1
unfolding sample_found producer_moves producer_at pump_wakes pump_moves pump_at producer_check
    producer_step pump_wake pump_step pump_drains hand_to_log writer_batch hand_to_sink
one_taken = refl

Reach-Recorded_example : Recorded nothing waiting_for_data written
Reach-Recorded_example =
    Reach-Recorded ideal ideal-Works nothing waiting_for_data written at_boot-Inv refl
      (record {
        active = refl;
        stage_ok = started-StageOk;
        slot_ok = omega arith;
        head_small = omega (arith, one_taken);
        total_small = omega (arith, one_taken);
        count_small = omega (arith, one_taken);
      })
      (empty-Holds started.mem) written-Reach
