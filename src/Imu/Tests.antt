-- ===== src/Imu/Tests.antt =====
-- A run of the two cores over the shared ring: flpr/src/main.c and src/imu/imu_pump.c.
use moamoa_caterpillar_firmw.Base.{◌+◌, ◌≤◌, ◌≡◌, refl, true, [], arith, tabulate}
use moamoa_caterpillar_firmw.Errno.{ok}
use moamoa_caterpillar_firmw.Imu.Shared.{Sample, zero_sample, imu_shared_magic, imu_ring_n}
use moamoa_caterpillar_firmw.Imu.Sampler.{between, producer_check, producer_step}
use moamoa_caterpillar_firmw.Imu.Pump.{asleep, pump_wake, pump_step}
use moamoa_caterpillar_firmw.Imu.Spsc.{
  System, sample_found, producer_at, producer_moves, pump_wakes, pump_at, pump_moves, sample,
  produce, wake, drain, Reach, here, next,
}
use moamoa_caterpillar_firmw.Imu.Spsc.Safety.{Reach-delivers, Reach-Inv}
use moamoa_caterpillar_firmw.Imu.Spsc.Invariant.{Inv}
use moamoa_caterpillar_firmw.Imu.Spsc.Accounts.{Accounted, Reach-Accounted}

-- The block as the sampler leaves it at boot.
abbrev pub at_boot : System
at_boot = record {
  sh = record {
    magic = imu_shared_magic;
    flpr_version = 1;
    imu_ok = true;
    whoami = 0x6B;
    cfg_seq = 1;
    cfg_odr = 7;
    cfg_content = 0;
    cfg_accel_fs = 0;
    cfg_gyro_fs = 0;
    cfg_applied = 1;
    cfg_status = ok;
    head = 0;
    tail = 0;
    overrun = 0;
    ring = λ i. zero_sample;
  };
  producer = between;
  consumer = asleep;
  found = 0;
  produced = 0;
  history = λ i. zero_sample;
  consumed = 0;
  delivered = [];
}

pub at_boot-Inv : Inv at_boot
at_boot-Inv = record {
  head_ok = refl;
  tail_ok = refl;
  ordered = omega arith;
  bounded = omega arith;
  kept = λ k h1 h2. absurd (omega arith);
  sent = refl;
  producer_fits = tt;
  consumer_fits = tt;
}

abbrev pub first : Sample
first = record zero_sample { ax = 5; seq16 = 1 }

-- A sample is found; the pump wakes before it is published, and again in the middle of it.
abbrev after_store : System
after_store = pump_wakes (producer_moves (sample_found first at_boot))

abbrev after : System
after = pump_moves (pump_moves (producer_moves (pump_moves after_store)))

after-Reach : Reach at_boot after
unfolding sample_found producer_moves producer_at pump_wakes pump_moves pump_at producer_check
    producer_step pump_wake pump_step
after-Reach =
    next
      (next
        (next (next (next (next (next here (sample first refl)) produce) (wake refl)) drain)
          produce)
        drain)
      drain

Reach-delivers_example :
    (after.delivered ≡ tabulate after.history 0 after.consumed)
    × (after.consumed ≤ after.produced)
    × (after.produced ≤ after.consumed + imu_ring_n)
Reach-delivers_example = Reach-delivers at_boot-Inv after-Reach

Reach-Inv_example : Inv after
Reach-Inv_example = Reach-Inv at_boot-Inv after-Reach

Reach-Accounted_example : Accounted after
Reach-Accounted_example = Reach-Accounted refl after-Reach
