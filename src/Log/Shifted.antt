-- ===== src/Log/Shifted.antt =====
-- `imu_log_read_session` of src/imu/imu_log.c on sessions behind the record 2 ^ 28, whose first byte
-- does not fit in the 32 bits of `abs_byte`.
mod Tests
use moamoa_caterpillar_firmw.Base.{
  ℕ, ◌+◌, ◌-◌, ◌*◌, ◌≤◌, ◌<◌, ◌≡◌, refl, ap, ap₂, sym, ◌/◌, ◌%◌, tabulate-ext, ◌∙◌, inl, inr,
  Bool-cases, some, arith, leb, tabulate, get_or, min, max, u32, sub32, tests, leb_false→lt,
}
use moamoa_caterpillar_firmw.Flash.{Mem, FlashDevice, Works, got}
use moamoa_caterpillar_firmw.Imu.Shared.{Sample, sample_bytes}
use moamoa_caterpillar_firmw.Log.Entry.{Entry, data_base, data_capacity, max_sessions, session_read}
use moamoa_caterpillar_firmw.Log.State.{Log, ring_floor}
use moamoa_caterpillar_firmw.Log.Sessions.{live_count}
use moamoa_caterpillar_firmw.Log.Reading.{read_ring, read_entry, imu_log_read_session}
use moamoa_caterpillar_firmw.Log.Contents.{Holds, history_byte, floor_lem}
use moamoa_caterpillar_firmw.Log.ReadBack.{read_ring-exact, FirstOf, find_session_at}

-- The records of as many whole rounds of the ring as fit in 2 ^ 32 bytes: 6174 * 43478.
abbrev rounds_recs : ℕ
rounds_recs = 268_433_172

-- What is left of 2 ^ 32 bytes behind those rounds: 2284 records.
abbrev pub shift_recs : ℕ
shift_recs = 2284

-- The history from that record on.
later : (ℕ → Sample) → ℕ → Sample
later hist i = hist (i + rounds_recs)

history_byte-later :
    (hist : ℕ → Sample) (b : ℕ)
    → history_byte (later hist) b ≡ history_byte hist (b + 16 * rounds_recs)
unfolding history_byte later
history_byte-later hist b =
    let whole : b / 16 + rounds_recs ≡ (b + 16 * rounds_recs) / 16 = omega arith in
    let rest : b % 16 ≡ (b + 16 * rounds_recs) % 16 = omega arith in
    ap₂ (λ i j. get_or (sample_bytes (hist i)) j 0) whole rest

-- Whole rounds do not move a record.
Holds-later :
    (mem : Mem) (total : ℕ) (hist : ℕ → Sample)
    → rounds_recs ≤ total
    → Holds mem total hist
    → Holds mem (total - rounds_recs) (later hist)
Holds-later mem total hist many h b lo hi =
    ap mem {y = data_base + (b + 16 * rounds_recs) % data_capacity} (omega arith)
    ∙ h (b + 16 * rounds_recs) (omega (arith, lo, floor_lem total, floor_lem (total - rounds_recs)))
        (omega (arith, hi))
    ∙ sym (history_byte-later hist b)

module _ (fl : FlashDevice) (works : Works fl) where
  read_ring-shifted :
      (mem : Mem) (total : ℕ) (hist : ℕ → Sample) (b n : ℕ)
      → Holds mem total hist
      → total + shift_recs < 536_870_912
      → 4_294_967_296 ≤ b
      → 16 * (ring_floor total + shift_recs) ≤ b
      → b + n ≤ 16 * total
      → read_ring fl mem n (u32 b) n ≡ got (tabulate (history_byte hist) (b - 16 * shift_recs) n)
  read_ring-shifted mem total hist b n h small late lo hi =
      ap (λ x. read_ring fl mem n x n) {y = b - 4_294_967_296} (omega arith)
      ∙ read_ring-exact fl works mem (total - rounds_recs) (later hist) n (b - 4_294_967_296) n
          (Holds-later mem total hist (omega (arith, floor_lem total)) h) (omega arith)
          (omega (arith, floor_lem total, floor_lem (total - rounds_recs))) (omega arith)
          (omega arith)
      ∙ ap got (
          tabulate-ext (history_byte (later hist)) (history_byte hist) (b - 4_294_967_296)
            (b - 16 * shift_recs) n
            (λ j p.
              history_byte-later hist (b - 4_294_967_296 + j)
              ∙ ap (history_byte hist) (omega arith)))

  -- An intact session behind the record 2 ^ 28: a read gives the bytes of the records that were
  -- written 2284 records before.
  read_entry-shifted :
      (l : Log) (hist : ℕ → Sample) (e : Entry) (offset len : ℕ)
      → Holds l.mem l.total_abs hist
      → l.total_abs + shift_recs < 536_870_912
      → 268_435_456 ≤ e.start_rec
      → ring_floor l.total_abs + shift_recs ≤ e.start_rec
      → e.start_rec + e.rec_count ≤ l.total_abs
      → read_entry fl l e offset len
        ≡ got (
            tabulate
              (history_byte hist)
              (16 * (e.start_rec - shift_recs) + offset)
              (min len (16 * e.rec_count - offset)))
  unfolding read_entry
  read_entry-shifted l hist e offset len h small late intact inside =
      elim (Bool-cases (leb end start)) [
        | inl none_left ↦ rw none_left (
            ap
              (λ n. got (tabulate (history_byte hist) (16 * (e.start_rec - shift_recs) + offset) n))
              {x = 0} (omega (tests, none_left)))
        | inr some_left ↦ elim (Bool-cases (leb avail offset)) [
          | inl past ↦
              rw (some_left, past)
                (ap
                  (λ n.
                    got (tabulate (history_byte hist) (16 * (e.start_rec - shift_recs) + offset) n))
                  {x = 0} (omega (tests, past, leb_false→lt _ _ some_left, floor_lem l.total_abs)))
          | inr within ↦
              let n = min len (avail - offset) in
              let e1 : u32 (u32 (start * 16) + offset) ≡ u32 (16 * e.start_rec + offset) =
                omega arith in
              let e2 : n ≡ min len (16 * e.rec_count - offset) =
                omega (arith, leb_false→lt _ _ some_left, floor_lem l.total_abs) in
              let e3 : 16 * e.start_rec + offset - 16 * shift_recs
                  ≡ 16 * (e.start_rec - shift_recs) + offset =
                omega arith in
              rw (some_left, within, e1, e2)
                (read_ring-shifted l.mem l.total_abs hist (16 * e.start_rec + offset) _ h small
                    (omega arith) (omega arith)
                    (omega (
                      arith,
                      leb_false→lt _ _ some_left,
                      leb_false→lt _ _ within,
                      floor_lem l.total_abs,
                    ))
                  ∙ ap
                      (λ i.
                        got (tabulate (history_byte hist) i (min len (16 * e.rec_count - offset))))
                      e3)
        ]
      ]
    where
      start : ℕ
      start = max e.start_rec (ring_floor l.total_abs)

      end : ℕ
      end = u32 (e.start_rec + e.rec_count)

      avail : ℕ
      avail = u32 (sub32 end start * 16)

  -- A session whose records are all still in the ring, that starts at the record 2 ^ 28 or behind it
  -- and at least 2284 records above the ring's floor, with fewer than 2 ^ 29 - 2284 records ever
  -- written: `imu_log_read_session` succeeds, and what it returns are not the session's bytes but those
  -- of the records written 2284 records before them, of whichever session these are.
  pub late_session-shifted :
      (l : Log) (hist : ℕ → Sample) (seq i offset len : ℕ) (e : Entry)
      → Holds l.mem l.total_abs hist
      → l.total_abs + shift_recs < 536_870_912
      → 268_435_456 ≤ e.start_rec
      → ring_floor l.total_abs + shift_recs ≤ e.start_rec
      → i < max_sessions
      → session_read fl l.mem i ≡ some e
      → e.seq ≡ seq
      → FirstOf fl works l seq i
      → e.start_rec + live_count l i e ≤ l.total_abs
      → imu_log_read_session fl l seq offset len
        ≡ got (
            tabulate
              (history_byte hist)
              (16 * (e.start_rec - shift_recs) + offset)
              (min len (16 * live_count l i e - offset)))
  unfolding imu_log_read_session
  late_session-shifted l hist seq i offset len e h small late intact lt found same first inside =
      rw
        (
          find_session_at fl works l seq i e i max_sessions 0 (omega arith) lt found same first,
          imu_log_read_session,
        )
        (read_entry-shifted l hist (record e { rec_count = live_count l i e }) offset len h small
          late intact inside)
