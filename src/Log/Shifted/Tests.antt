-- ===== src/Log/Shifted/Tests.antt =====
-- A read behind the record 2 ^ 28: src/imu/imu_log.c.
use moamoa_caterpillar_firmw.Base.{
  ℕ, zero, suc, ◌+◌, ◌*◌, ◌-◌, ◌%◌, ◌<◌, ◌≡◌, refl, ◌∙◌, sym, some, arith, [], ◌∷◌, tabulate,
  get_or, replicate,
}
use moamoa_caterpillar_firmw.Flash.{got, patch}
use moamoa_caterpillar_firmw.Flash.Laws.{patch-out}
use moamoa_caterpillar_firmw.Flash.Ideal.{ideal, ideal-Works}
use moamoa_caterpillar_firmw.Imu.Shared.{Sample, sample_bytes}
use moamoa_caterpillar_firmw.Log.Entry.{
  Entry, data_base, data_capacity, rec_capacity, entry_addr, entry_bytes, session_read,
  session_of_read, entry_of_bytes,
}
use moamoa_caterpillar_firmw.Log.Frame.{length-entry_bytes}
use moamoa_caterpillar_firmw.Log.State.{Log, ring_floor}
use moamoa_caterpillar_firmw.Log.Reading.{imu_log_read_session}
use moamoa_caterpillar_firmw.Log.Contents.{Holds, Holds-patch, extend, history_byte}
use moamoa_caterpillar_firmw.Log.Writer.{batch_bytes}
use moamoa_caterpillar_firmw.Log.Scenario.{first, entry, started}
use moamoa_caterpillar_firmw.Log.Shifted.{shift_recs, late_session-shifted}

abbrev many : ℕ
many = 268_500_000

-- Records of which no bit is cleared.
abbrev ones : ℕ → Sample
ones i = record {
  ax = 0xFFFF;
  ay = 0xFFFF;
  az = 0xFFFF;
  gx = 0xFFFF;
  gy = 0xFFFF;
  gz = 0xFFFF;
  temp_raw = 0xFFFF;
  seq16 = 0xFFFF;
}

get_or-replicate : (n k x d : ℕ) → k < n → get_or (replicate n x) k d ≡ x
get_or-replicate zero k x d h = absurd (omega arith)
get_or-replicate (suc n) zero x d h = refl
get_or-replicate (suc n) (suc k) x d h = get_or-replicate n k x d (omega arith)

history_byte-ones : (b : ℕ) → history_byte ones b ≡ 255
unfolding history_byte sample_bytes
history_byte-ones b = get_or-replicate 16 (b % 16) 255 0 (omega arith)

-- A session of one record, that began behind as many records of other sessions.
abbrev late : Entry
late = record entry { start_rec = many }

abbrev before : Log
before = record started {
  mem = patch (λ x. 255) (entry_addr 0) (entry_bytes late);
  total_abs = many;
  cur_start = many;
}

before-Holds : Holds before.mem many ones
unfolding entry_addr
before-Holds b lo hi =
    patch-out (λ x. 255) (entry_addr 0) (entry_bytes late) (data_base + b % data_capacity)
      (omega (arith, length-entry_bytes late))
    ∙ sym (history_byte-ones b)

abbrev one_late : Log
one_late = record before {
  mem = patch before.mem (data_base + many % rec_capacity * 16) (batch_bytes (first ∷ []));
  total_abs = many + 1;
  cur_count = 1;
}

late-found : session_read ideal one_late.mem 0 ≡ some late
unfolding session_read session_of_read entry_of_bytes entry_bytes entry_addr patch batch_bytes
    sample_bytes
late-found = refl

late_session-shifted_example :
    imu_log_read_session ideal one_late 1 0 16
    ≡ got
        (tabulate (history_byte (extend ones many (first ∷ []))) (16 * (many - shift_recs) + 0) 16)
unfolding ring_floor
late_session-shifted_example =
    late_session-shifted ideal ideal-Works one_late (extend ones many (first ∷ [])) 1 0 0 16 late
      (Holds-patch before.mem many ones (first ∷ []) (omega arith) before-Holds) (omega arith)
      (omega arith) (omega arith) (omega arith) late-found refl (λ j e h. absurd (omega arith))
      (omega arith)
