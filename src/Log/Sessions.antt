-- ===== src/Log/Sessions.antt =====
-- src/imu/imu_log.c: the session list, newest first.
use moamoa_caterpillar_firmw.Base.{
  ℕ, zero, suc, ◌+◌, ◌&&◌, List, [], ◌∷◌, Option, none, some, ltb, leb, ◌==◌, if◌then◌else◌, u32,
  sub32, take, max,
}
use moamoa_caterpillar_firmw.Flash.{FlashDevice}
use moamoa_caterpillar_firmw.Log.Entry.{Entry, max_sessions, session_read}
use moamoa_caterpillar_firmw.Log.State.{Log, ring_floor}

-- `struct imu_log_session`
pub record Session : Type 0 where
  pub seq : ℕ
  pub wall_start : ℕ
  pub rec_count : ℕ
  pub odr_code : ℕ
  pub content : ℕ
  pub accel_fs : ℕ
  pub gyro_fs : ℕ

-- The summary of one entry, with the count that is read for it: clipped to what survives in the
-- ring, and left out when nothing does.
unfoldable pub summary : ℕ → Entry → ℕ → Option Session
summary floor e count =
    let start = e.start_rec in
    let end = u32 (start + count) in
    if leb end floor
    then none
    else some (record {
      seq = e.seq;
      wall_start = e.wall_start;
      rec_count = sub32 end (max start floor);
      odr_code = e.odr_code;
      content = e.content;
      accel_fs = e.accel_fs;
      gyro_fs = e.gyro_fs;
    })

-- `(active && i == cur_slot) ? cur_count : e.rec_count`
abbrev pub live_count : Log → ℕ → Entry → ℕ
live_count l i e = if l.active && i == l.cur_slot then l.cur_count else e.rec_count

-- The inner loop of the insertion sort. The list is the sorted part of `tmp` from its end, so the
-- newest session is last.
unfoldable pub insert_session : Session → List Session → List Session
insert_session x [] = x ∷ []
insert_session x (y ∷ ys) =
    let rest = insert_session x ys in if ltb y.seq x.seq then y ∷ rest else x ∷ y ∷ ys

unfoldable pub sort_sessions : List Session → List Session → List Session
sort_sessions done [] = done
sort_sessions done (x ∷ xs) = sort_sessions (insert_session x done) xs

-- `tmp` from its start.
unfoldable pub from_start : List Session → List Session → List Session
from_start [] out = out
from_start (x ∷ xs) out = from_start xs (x ∷ out)

module _ (fl : FlashDevice) where
  unfoldable pub slot_summary : Log → ℕ → Option Session
  unfolding summary
  slot_summary l i = elim (session_read fl l.mem i) [
    | none ↦ none
    | some e ↦ summary (ring_floor l.total_abs) e (live_count l i e)
  ]

  abbrev pub keep : Option Session → List Session → List Session
  keep none ss = ss
  keep (some s) ss = s ∷ ss

  -- The loop over the directory, with the rounds left and the index.
  unfoldable pub collect : Log → ℕ → ℕ → List Session
  unfolding slot_summary
  collect l zero i = []
  collect l (suc n) i = keep (slot_summary l i) (collect l n (i + 1))

  unfoldable pub imu_log_session_list : Log → ℕ → List Session
  unfolding collect sort_sessions insert_session from_start
  imu_log_session_list l most =
      take most (from_start (sort_sessions [] (collect l max_sessions 0)) [])
