-- ===== src/Log/ReadBack.antt =====
-- `imu_log_read_session` of src/imu/imu_log.c against the flat history of records.
use moamoa_caterpillar_firmw.Base.{
  ℕ, zero, suc, ◌+◌, ◌-◌, ◌*◌, ◌%◌, ◌≤◌, ◌<◌, ◌≡◌, ap, sym, subst, ◌∙◌, inl, inr, false, Bool-cases,
  Option-cases, List, ◌++◌, some, arith, leb, ◌==◌, tabulate, tabulate-ext, tabulate-add, min, max,
  u32, sub32, ==_iff, tests, leb_false→lt,
}
use moamoa_caterpillar_firmw.Flash.{Mem, FlashDevice, Works, got, bytes}
use moamoa_caterpillar_firmw.Imu.Shared.{Sample}
use moamoa_caterpillar_firmw.Log.Entry.{Entry, data_base, data_capacity, max_sessions, session_read}
use moamoa_caterpillar_firmw.Log.State.{Log, ring_floor}
use moamoa_caterpillar_firmw.Log.Sessions.{live_count}
use moamoa_caterpillar_firmw.Log.Reading.{find_session, read_ring, read_entry, imu_log_read_session}
use moamoa_caterpillar_firmw.Log.Contents.{Holds, history_byte}

module _ (fl : FlashDevice) (works : Works fl) where
  -- The bytes of one round of the loop.
  ring_bytes :
      (mem : Mem) (total : ℕ) (hist : ℕ → Sample) (b n : ℕ)
      → Holds mem total hist
      → 16 * ring_floor total ≤ b
      → b + n ≤ 16 * total
      → n ≤ data_capacity - b % data_capacity
      → bytes mem (data_base + b % data_capacity) n ≡ tabulate (history_byte hist) b n
  ring_bytes mem total hist b n h lo hi fits =
      tabulate-ext mem (history_byte hist) (data_base + b % data_capacity) b n (λ j p.
        ap mem {y = data_base + (b + j) % data_capacity} (omega arith)
        ∙ h (b + j) (omega arith) (omega arith))

  one_round :
      (mem : Mem) (fuel abs_byte len : ℕ) (bs rest : List ℕ)
      → (len == 0) ≡ false
      → let span = min len (data_capacity - abs_byte % data_capacity) in
        (fl.read mem (data_base + abs_byte % data_capacity) span ≡ got bs)
        → (read_ring fl mem fuel (u32 (abs_byte + span)) (len - span) ≡ got rest)
        → read_ring fl mem (suc fuel) abs_byte len ≡ got (bs ++ rest)
  unfolding read_ring
  one_round mem fuel abs_byte len bs rest more first later = ground arith

  -- The copying loop, round the end of the ring as often as it takes.
  pub read_ring-exact :
      (mem : Mem) (total : ℕ) (hist : ℕ → Sample) (fuel abs_byte len : ℕ)
      → Holds mem total hist
      → len ≤ fuel
      → 16 * ring_floor total ≤ abs_byte
      → abs_byte + len ≤ 16 * total
      → 16 * total < 4_294_967_296
      → read_ring fl mem fuel abs_byte len ≡ got (tabulate (history_byte hist) abs_byte len)
  unfolding read_ring
  read_ring-exact mem total hist zero abs_byte len h f lo hi small =
      let e : 0 ≡ len = omega arith in ap (λ n. got (tabulate (history_byte hist) abs_byte n)) e
  read_ring-exact mem total hist (suc fuel) abs_byte len h f lo hi small =
      elim (Bool-cases (len == 0)) [
        | inl done ↦
            let e : 0 ≡ len = sym ((==_iff len 0).0 done) in
            rw done (ap (λ n. got (tabulate (history_byte hist) abs_byte n)) e)
        | inr more ↦
            let span = min len (data_capacity - abs_byte % data_capacity) in
            let nonzero : 0 < len = ground (arith, more) in
            one_round mem fuel abs_byte len _ _ more
              (works.reads mem _ span (omega arith)
                ∙ ap got (ring_bytes mem total hist abs_byte span h lo (omega arith) (omega arith)))
              (ap (λ b. read_ring fl mem fuel b (len - span)) {y = abs_byte + span} (omega arith)
                ∙ read_ring-exact mem total hist fuel (abs_byte + span) (len - span) h (omega arith)
                    (omega arith) (omega arith) small)
            ∙ ap got (
                sym (tabulate-add (history_byte hist) abs_byte span (len - span))
                ∙ ap (tabulate (history_byte hist) abs_byte) (omega arith))
      ]

  -- The bytes of an entry that can be read: 16 for each record that survives.
  abbrev pub readable : Log → Entry → ℕ
  readable l e = 16 * (e.start_rec + e.rec_count - max e.start_rec (ring_floor l.total_abs))

  -- Reading an entry: the bytes of its surviving records from the offset on, cut to the length
  -- asked for and to what is there.
  pub read_entry-exact :
      (l : Log) (hist : ℕ → Sample) (e : Entry) (offset len : ℕ)
      → Holds l.mem l.total_abs hist
      → 16 * l.total_abs < 4_294_967_296
      → e.start_rec + e.rec_count ≤ l.total_abs
      → read_entry fl l e offset len
        ≡ got (
            tabulate
              (history_byte hist)
              (16 * max e.start_rec (ring_floor l.total_abs) + offset)
              (min len (readable l e - offset)))
  unfolding read_entry
  read_entry-exact l hist e offset len h small inside = elim (Bool-cases (leb end start)) [
    | inl none_left ↦ rw none_left (
        ap (λ n. got (tabulate (history_byte hist) (16 * start + offset) n)) {x = 0}
          (omega (tests, none_left)))
    | inr some_left ↦ elim (Bool-cases (leb avail offset)) [
      | inl past ↦
          rw (some_left, past)
            (ap (λ n. got (tabulate (history_byte hist) (16 * start + offset) n)) {x = 0}
              (ground (arith, some_left, past)))
      | inr within ↦
          let e1 : u32 (u32 (start * 16) + offset) ≡ 16 * start + offset =
            omega (arith, leb_false→lt _ _ some_left, leb_false→lt _ _ within) in
          let e2 : min len (avail - offset) ≡ min len (readable l e - offset) =
            omega (arith, leb_false→lt _ _ some_left) in
          rw (some_left, within, e1, e2)
            (read_ring-exact l.mem l.total_abs hist _ (16 * start + offset) _ h (omega arith)
              (omega arith) (omega (arith, leb_false→lt _ _ some_left, leb_false→lt _ _ within))
              small)
    ]
  ]
    where
      start : ℕ
      start = max e.start_rec (ring_floor l.total_abs)

      end : ℕ
      end = u32 (e.start_rec + e.rec_count)

      avail : ℕ
      avail = u32 (sub32 end start * 16)

  -- No slot before the given one has a session of that number.
  abbrev pub FirstOf : Log → ℕ → ℕ → Type 0
  FirstOf l seq i =
      (j : ℕ) (e : Entry) → j < i → session_read fl l.mem j ≡ some e → (e.seq == seq) ≡ false

  find_session_step :
      (l : Log) (seq n j : ℕ)
      → ((e : Entry) → session_read fl l.mem j ≡ some e → (e.seq == seq) ≡ false)
      → find_session fl l seq (suc n) j ≡ find_session fl l seq n (j + 1)
  unfolding find_session
  find_session_step l seq n j other = elim (Option-cases (session_read fl l.mem j)) [
    | inl e ↦ rw (e, find_session)
    | inr (e, found) ↦ ground (arith, found, other e found)
  ]

  find_session_hit :
      (l : Log) (seq n i : ℕ) (e : Entry)
      → session_read fl l.mem i ≡ some e
      → e.seq ≡ seq
      → find_session fl l seq (suc n) i ≡ some (record e { rec_count = live_count l i e })
  unfolding find_session
  find_session_hit l seq n i e found same = ground (arith, found, same)

  pub find_session_at :
      (l : Log) (seq i : ℕ) (e : Entry) (k n j : ℕ)
      → j + k ≡ i
      → k < n
      → session_read fl l.mem i ≡ some e
      → e.seq ≡ seq
      → FirstOf l seq i
      → find_session fl l seq n j ≡ some (record e { rec_count = live_count l i e })
  find_session_at l seq i e k zero j at lt found same first = absurd (omega arith)
  find_session_at l seq i e zero (suc n) j at lt found same first =
      let here : i ≡ j = omega arith in
      subst
        (λ t. find_session fl l seq (suc n) t ≡ some (record e { rec_count = live_count l i e }))
        here (find_session_hit l seq n i e found same)
  find_session_at l seq i e (suc k) (suc n) j at lt found same first =
      find_session_step l seq n j (λ e' f. first j e' (omega arith) f)
      ∙ find_session_at l seq i e k n (j + 1) (omega arith) (omega arith) found same first

  -- `imu_log_read_session` on the session that a directory slot holds, while the ring holds the
  -- history and fewer than 2 ^ 28 records were ever written: it returns the bytes of the session's
  -- surviving records from the offset on, as many as were asked for and are there, also round the
  -- end of the ring; nothing at or past the end; and it never fails.
  pub imu_log_read_session-exact :
      (l : Log) (hist : ℕ → Sample) (seq i offset len : ℕ) (e : Entry)
      → Holds l.mem l.total_abs hist
      → 16 * l.total_abs < 4_294_967_296
      → i < max_sessions
      → session_read fl l.mem i ≡ some e
      → e.seq ≡ seq
      → FirstOf l seq i
      → e.start_rec + live_count l i e ≤ l.total_abs
      → let s = record e { rec_count = live_count l i e } in
        imu_log_read_session fl l seq offset len
        ≡ got (
            tabulate
              (history_byte hist)
              (16 * max e.start_rec (ring_floor l.total_abs) + offset)
              (min len (readable l s - offset)))
  unfolding imu_log_read_session
  imu_log_read_session-exact l hist seq i offset len e h small lt found same first inside =
      rw
        (
          find_session_at l seq i e i max_sessions 0 (omega arith) lt found same first,
          imu_log_read_session,
        )
        (read_entry-exact l hist (record e { rec_count = live_count l i e }) offset len h small
          inside)
