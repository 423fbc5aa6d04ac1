-- ===== src/Log/Reading.antt =====
-- src/imu/imu_log.c: reading a session back.
use moamoa_caterpillar_firmw.Base.{
  ℕ, zero, suc, ◌+◌, ◌-◌, ◌*◌, ◌%◌, List, [], ◌++◌, Option, none, some, leb, ◌==◌, if◌then◌else◌,
  u32, sub32, min, max,
}
use moamoa_caterpillar_firmw.Flash.{Mem, FlashDevice, Read, got, failed}
use moamoa_caterpillar_firmw.Log.Entry.{Entry, max_sessions, data_base, data_capacity, session_read}
use moamoa_caterpillar_firmw.Log.State.{Log, ring_floor}
use moamoa_caterpillar_firmw.Log.Sessions.{live_count}

module _ (fl : FlashDevice) where
  -- The search for the session: the first entry with its number, with the live count.
  unfoldable pub find_session : Log → ℕ → ℕ → ℕ → Option Entry
  find_session l seq zero i = none
  find_session l seq (suc n) i =
      let rest = find_session l seq n (i + 1) in
      elim (session_read fl l.mem i) [
        | none ↦ rest
        | some e ↦ if e.seq == seq then some (record e { rec_count = live_count l i e }) else rest
      ]

  abbrev pub then_append : List ℕ → Read → Read
  then_append bs (failed e) = failed e
  then_append bs (got rest) = got (bs ++ rest)

  -- The copying loop, on fuel: the absolute byte and the bytes left. A failed read is the result
  -- of the whole call, whatever was read before it.
  unfoldable pub read_ring : Mem → ℕ → ℕ → ℕ → Read
  read_ring mem zero abs_byte len = got []
  read_ring mem (suc fuel) abs_byte len =
      let ring_off = abs_byte % data_capacity in
      let span = min len (data_capacity - ring_off) in
      let rest = read_ring mem fuel (u32 (abs_byte + span)) (len - span) in
      if len == 0 then got [] else elim (fl.read mem (data_base + ring_off) span) [
        | failed e ↦ failed e
        | got bs ↦ then_append bs rest
      ]

  -- The body behind the search, for an entry that was found. Each round of the loop reads a byte
  -- at least, so as much fuel as bytes is enough.
  unfoldable pub read_entry : Log → Entry → ℕ → ℕ → Read
  unfolding read_ring
  read_entry l e offset len =
      let start = max e.start_rec (ring_floor l.total_abs) in
      let end = u32 (e.start_rec + e.rec_count) in
      if leb end start
      then got []
      else (let avail = u32 (sub32 end start * 16) in
          if leb avail offset
          then got []
          else (let n = min len (avail - offset) in
              read_ring l.mem n (u32 (u32 (start * 16) + offset)) n))

  unfoldable pub imu_log_read_session : Log → ℕ → ℕ → ℕ → Read
  unfolding find_session read_entry
  imu_log_read_session l seq offset len = elim (find_session l seq max_sessions 0) [
    | none ↦ got []
    | some e ↦ read_entry l e offset len
  ]
