-- ===== src/Log/Scenario.antt =====
-- States of the session log that the runs start from: src/imu/imu_log.c.
use moamoa_caterpillar_firmw.Base.{ℕ, ◌+◌, ◌*◌, ◌%◌, ◌≡◌, refl, true, false, [], ◌∷◌, some, arith}
use moamoa_caterpillar_firmw.Flash.{Mem, patch}
use moamoa_caterpillar_firmw.Flash.Ideal.{ideal}
use moamoa_caterpillar_firmw.Imu.Shared.{Sample, zero_sample, sample_bytes}
use moamoa_caterpillar_firmw.Log.Entry.{
  Entry, entry_bytes, entry_of_bytes, entry_addr, entry_magic, session_read, session_of_read,
  data_base, rec_capacity,
}
use moamoa_caterpillar_firmw.Log.State.{Log}
use moamoa_caterpillar_firmw.Log.Writer.{batch_bytes}
use moamoa_caterpillar_firmw.Log.Contents.{Holds, extend, Holds-patch}
use moamoa_caterpillar_firmw.Log.Staging.{StageOk}

abbrev pub nothing : ℕ → Sample
nothing = λ i. zero_sample

abbrev pub first : Sample
first = record zero_sample { ax = 5; seq16 = 1 }

abbrev pub second : Sample
second = record zero_sample { gz = 7; seq16 = 2 }

abbrev pub entry : Entry
entry = record {
  magic = entry_magic;
  seq = 1;
  start_rec = 0;
  rec_count = 0;
  wall_start = 0;
  odr_code = 7;
  content = 3;
  accel_fs = 0;
  gyro_fs = 0;
  policy = 1;
  opened = 1;
  rsvd0 = 0;
  rsvd1 = 0;
  rsvd2 = 0;
}

-- Session 1 has just started in an empty ring, its entry in slot 0.
abbrev pub started : Log
started = record {
  mem = patch (λ x. 255) (entry_addr 0) (entry_bytes entry);
  total_abs = 0;
  seq_next = 2;
  active = true;
  session_detached = false;
  cur_seq = 1;
  cur_start = 0;
  cur_count = 0;
  cur_slot = 0;
  last_dir_refresh = 0;
  stage = nothing;
  stage_head = 0;
  stage_tail = 0;
  log_dropped = 0;
  announced = [];
}

pub started-StageOk : StageOk started
started-StageOk = record {
  ordered = omega arith;
  no_wrap = omega arith;
  bounded = omega arith;
  dropped_fits = omega arith;
}

pub empty-Holds : (m : Mem) → Holds m 0 nothing
empty-Holds m b lo hi = absurd (omega arith)

-- One record written and counted, the session still open.
abbrev pub one_written : Log
one_written = record started {
  mem = patch started.mem (data_base + 0 % rec_capacity * 16) (batch_bytes (first ∷ []));
  total_abs = 1;
  cur_count = 1;
}

pub one_written-Holds : Holds one_written.mem 1 (extend nothing 0 (first ∷ []))
one_written-Holds =
    Holds-patch started.mem 0 nothing (first ∷ []) (omega arith) (empty-Holds started.mem)

pub slot_0 : session_read ideal one_written.mem 0 ≡ some entry
unfolding session_read session_of_read entry_of_bytes entry_bytes entry_addr patch batch_bytes
    sample_bytes
slot_0 = refl
