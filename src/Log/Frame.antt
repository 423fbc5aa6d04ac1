-- ===== src/Log/Frame.antt =====
-- What the writes of src/imu/imu_log.c to the directory leave alone.
use moamoa_caterpillar_firmw.Base.{
  ℕ, zero, suc, ◌+◌, ◌≤◌, ◌<◌, ◌≡◌, refl, ap, ◌∙◌, inl, inr, Bool, ◌&&◌, Bool-cases, Option-cases,
  List, arith, length, ltb, ◌==◌,
}
use moamoa_caterpillar_firmw.Errno.{ok}
use moamoa_caterpillar_firmw.Flash.{Mem, FlashDevice, Works, patch}
use moamoa_caterpillar_firmw.Flash.Laws.{patch-out}
use moamoa_caterpillar_firmw.Imu.Shared.{Sample}
use moamoa_caterpillar_firmw.Log.Entry.{
  Entry, entry_bytes, entry_addr, invalid_bytes, data_base, session_read, entry_write,
  entry_invalidate, max_sessions,
}
use moamoa_caterpillar_firmw.Log.State.{
  Log, ring_floor, consume_slot, consume_from, invalidate_consumed, dir_refresh_current,
}
use moamoa_caterpillar_firmw.Log.Contents.{Holds}

-- The two memories have the same record ring.
abbrev pub SameData : Mem → Mem → Type 0
SameData m m' = (x : ℕ) → data_base ≤ x → m' x ≡ m x

pub SameData-Holds :
    (m m' : Mem) (total : ℕ) (hist : ℕ → Sample)
    → SameData m m'
    → Holds m total hist
    → Holds m' total hist
SameData-Holds m m' total hist same h b lo hi = same _ (omega arith) ∙ h b lo hi

pub length-entry_bytes : (e : Entry) → length (entry_bytes e) ≡ 32
unfolding entry_bytes
length-entry_bytes e = refl

module _ (fl : FlashDevice) (works : Works fl) where
  -- On a device that works, an entry write in the directory succeeds and is a patch.
  pub entry_write_lem :
      (mem : Mem) (slot : ℕ) (e : Entry)
      → slot < max_sessions
      → entry_write fl mem slot e ≡ (ok, patch mem (entry_addr slot) (entry_bytes e))
  unfolding entry_write entry_addr
  entry_write_lem mem slot e h =
      works.writes mem _ (entry_bytes e) (omega (arith, length-entry_bytes e))

  pub entry_invalidate_lem :
      (mem : Mem) (slot : ℕ)
      → slot < max_sessions
      → entry_invalidate fl mem slot ≡ patch mem (entry_addr slot) invalid_bytes
  unfolding entry_invalidate entry_addr
  entry_invalidate_lem mem slot h = ap (λ r. r.1) (works.writes mem _ invalid_bytes (omega arith))

  pub entry_write-SameData :
      (mem : Mem) (slot : ℕ) (e : Entry)
      → slot < max_sessions
      → SameData mem (entry_write fl mem slot e).1
  unfolding entry_addr
  entry_write-SameData mem slot e h x hx =
      rw (entry_write_lem mem slot e h)
        (patch-out mem _ (entry_bytes e) x (omega (arith, length-entry_bytes e)))

  entry_invalidate-SameData :
      (mem : Mem) (slot : ℕ) → slot < max_sessions → SameData mem (entry_invalidate fl mem slot)
  unfolding entry_addr
  entry_invalidate-SameData mem slot h x hx =
      rw (entry_invalidate_lem mem slot h) (patch-out mem _ invalid_bytes x (omega arith))

  -- What the loop of `invalidate_consumed` changes: entries and announcements.
  pub record Untouched (l l' : Log) : Type 0 where
    pub same_data : SameData l.mem l'.mem
    pub total_abs : l'.total_abs ≡ l.total_abs
    pub active : l'.active ≡ l.active
    pub cur_count : l'.cur_count ≡ l.cur_count
    pub cur_slot : l'.cur_slot ≡ l.cur_slot
    pub cur_start : l'.cur_start ≡ l.cur_start
    pub cur_seq : l'.cur_seq ≡ l.cur_seq
    pub seq_next : l'.seq_next ≡ l.seq_next
    pub stage : l'.stage ≡ l.stage
    pub stage_head : l'.stage_head ≡ l.stage_head
    pub stage_tail : l'.stage_tail ≡ l.stage_tail
    pub log_dropped : l'.log_dropped ≡ l.log_dropped

  only_directory :
      (l : Log) (mem' : Mem) (announced : List (ℕ × ℕ)) (refresh : ℕ)
      → SameData l.mem mem'
      → Untouched l (record l { mem = mem'; announced = announced; last_dir_refresh = refresh })
  only_directory l mem' announced refresh same = record {
    same_data = same;
    total_abs = refl;
    active = refl;
    cur_count = refl;
    cur_slot = refl;
    cur_start = refl;
    cur_seq = refl;
    seq_next = refl;
    stage = refl;
    stage_head = refl;
    stage_tail = refl;
    log_dropped = refl;
  }

  pub untouched : (l : Log) → Untouched l l
  untouched l = only_directory l l.mem l.announced l.last_dir_refresh (λ x h. refl)

  pub Untouched-trans : (a b c : Log) → Untouched a b → Untouched b c → Untouched a c
  Untouched-trans a b c p q = record {
    same_data = λ x h. q.same_data x h ∙ p.same_data x h;
    total_abs = q.total_abs ∙ p.total_abs;
    active = q.active ∙ p.active;
    cur_count = q.cur_count ∙ p.cur_count;
    cur_slot = q.cur_slot ∙ p.cur_slot;
    cur_start = q.cur_start ∙ p.cur_start;
    cur_seq = q.cur_seq ∙ p.cur_seq;
    seq_next = q.seq_next ∙ p.seq_next;
    stage = q.stage ∙ p.stage;
    stage_head = q.stage_head ∙ p.stage_head;
    stage_tail = q.stage_tail ∙ p.stage_tail;
    log_dropped = q.log_dropped ∙ p.log_dropped;
  }

  consume_slot-Untouched : (i : ℕ) (l : Log) → i < max_sessions → Untouched l (consume_slot fl i l)
  unfolding consume_slot
  consume_slot-Untouched i l h = elim (Bool-cases (l.active && i == l.cur_slot)) [
    | inl own ↦ rw own (untouched l)
    | inr other ↦ elim (Option-cases (session_read fl l.mem i)) [
      | inl e ↦ rw (other, e) (untouched l)
      | inr (e, found) ↦ elim (Bool-cases (ltb e.start_rec (ring_floor l.total_abs))) [
        | inr keep ↦ rw (other, found, keep) (untouched l)
        | inl gone ↦
            rw (other, found, gone) (only_directory l _ _ _ (entry_invalidate-SameData l.mem i h))
      ]
    ]
  ]

  consume_from-Untouched :
      (n i : ℕ) (l : Log) → i + n ≤ max_sessions → Untouched l (consume_from fl n i l)
  unfolding consume_from
  consume_from-Untouched zero i l h = untouched l
  consume_from-Untouched (suc n) i l h =
      Untouched-trans l _ _ (consume_slot-Untouched i l (omega arith))
        (consume_from-Untouched n (i + 1) (consume_slot fl i l) (omega arith))

  pub invalidate_consumed-Untouched : (l : Log) → Untouched l (invalidate_consumed fl l)
  unfolding invalidate_consumed
  invalidate_consumed-Untouched l = consume_from-Untouched max_sessions 0 l (omega arith)

  pub dir_refresh_current-Untouched :
      (closing : Bool) (l : Log)
      → l.cur_slot < max_sessions
      → Untouched l (dir_refresh_current fl closing l)
  unfolding dir_refresh_current
  dir_refresh_current-Untouched closing l h =
      elim (Option-cases (session_read fl l.mem l.cur_slot)) [
        | inl e ↦ rw (e, dir_refresh_current) (untouched l)
        | inr (e, found) ↦
            rw (found, dir_refresh_current)
              (only_directory l _ _ _ (entry_write-SameData l.mem l.cur_slot _ h))
      ]
