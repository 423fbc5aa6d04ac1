-- ===== src/Log/State.antt =====
-- src/imu/imu_log.c: the statics, and the helpers on the directory.
use moamoa_caterpillar_firmw.Base.{
  ℕ, zero, suc, ◌+◌, ◌-◌, Bool, ◌&&◌, List, [], ◌∷◌, ◌++◌, none, some, ltb, ◌==◌, if◌then◌else◌,
}
use moamoa_caterpillar_firmw.Flash.{Mem, FlashDevice}
use moamoa_caterpillar_firmw.Imu.Shared.{Sample}
use moamoa_caterpillar_firmw.Log.Entry.{
  rec_capacity, max_sessions, session_read, entry_write, entry_invalidate,
}

-- The staging ring is a function of the index, which is always below STAGE_N.
pub record Log : Type 0 where
  pub mem : Mem
  pub total_abs : ℕ
  pub seq_next : ℕ
  pub active : Bool
  pub session_detached : Bool
  pub cur_seq : ℕ
  pub cur_start : ℕ
  pub cur_count : ℕ
  pub cur_slot : ℕ
  pub last_dir_refresh : ℕ
  pub stage : ℕ → Sample
  pub stage_head : ℕ
  pub stage_tail : ℕ
  pub log_dropped : ℕ
  pub announced : List (ℕ × ℕ)  -- `session #a overwritten by session #b`, as sent by `ble_msg`

unfoldable pub ring_floor : ℕ → ℕ
ring_floor total_abs = if ltb rec_capacity total_abs then total_abs - rec_capacity else 0

module _ (fl : FlashDevice) where
  -- One round of the loop of `invalidate_consumed`.
  unfoldable pub consume_slot : ℕ → Log → Log
  unfolding ring_floor
  consume_slot i l = if l.active && i == l.cur_slot then l else elim (session_read fl l.mem i) [
    | none ↦ l
    | some e ↦
        if ltb e.start_rec (ring_floor l.total_abs)
        then record l {
          mem = entry_invalidate fl l.mem i;
          announced = l.announced ++ (e.seq, l.cur_seq) ∷ [];
        }
        else l
  ]

  -- The loop, with the rounds left and the index.
  unfoldable pub consume_from : ℕ → ℕ → Log → Log
  consume_from zero i l = l
  consume_from (suc n) i l = consume_from n (i + 1) (consume_slot i l)

  unfoldable pub invalidate_consumed : Log → Log
  unfolding consume_from consume_slot
  invalidate_consumed l = consume_from max_sessions 0 l

  unfoldable pub dir_refresh_current : Bool → Log → Log
  dir_refresh_current closing l = elim (session_read fl l.mem l.cur_slot) [
    | none ↦ l
    | some e ↦ record l {
      mem =
          (entry_write fl l.mem l.cur_slot
            (record e { rec_count = l.cur_count; opened = if closing then 0 else 1 })).1;
      last_dir_refresh = l.cur_count;
    }
  ]
