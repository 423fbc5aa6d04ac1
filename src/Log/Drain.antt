-- ===== src/Log/Drain.antt =====
-- The writer of src/imu/imu_log.c against the flat history of records.
use moamoa_caterpillar_firmw.Base.{
  ℕ, zero, suc, ◌+◌, ◌-◌, ◌*◌, ◌%◌, ◌≤◌, ◌<◌, ◌≡◌, refl, ap, sym, subst, ◌∙◌, ◌⊎◌, inl, inr, true,
  false, Bool-cases, List, ◌++◌, arith, length, length-tabulate, leb, ◌==◌, fun_ext,
  get_or-append_left, get_or-append_right, tabulate-ext, tabulate-add, u32, sub32, get_or,
}
use moamoa_caterpillar_firmw.Flash.{FlashDevice, Works, patch}
use moamoa_caterpillar_firmw.Imu.Shared.{Sample, zero_sample}
use moamoa_caterpillar_firmw.Log.Entry.{data_base, rec_capacity, max_sessions}
use moamoa_caterpillar_firmw.Log.State.{Log, dir_refresh_current}
use moamoa_caterpillar_firmw.Log.Writer.{
  dir_refresh_recs, stage_n, batch_bytes, batch_size, batch_of, write_batch, refresh_when_due,
  writer_drain_batch, writer_run,
}
use moamoa_caterpillar_firmw.Log.Contents.{
  Holds, extend, Holds-patch, history_byte-extend_old, length-batch_bytes,
}
use moamoa_caterpillar_firmw.Log.Staging.{StageOk, staged_from}
use moamoa_caterpillar_firmw.Log.Frame.{
  SameData-Holds, Untouched, Untouched-trans, untouched, invalidate_consumed-Untouched,
  dir_refresh_current-Untouched,
}

-- What the writer relies on: the staging counters in order, and counters far from wrapping.
pub record DrainOk (l : Log) : Type 0 where
  pub stage_ok : StageOk l
  pub slot_ok : l.cur_slot < max_sessions
  pub small : l.total_abs + (l.stage_head - l.stage_tail) < 4_294_967_296
  pub count_small : l.cur_count + (l.stage_head - l.stage_tail) < 4_294_967_296

extend-append_at :
    (hist : ℕ → Sample) (total : ℕ) (xs ys : List Sample) (i : ℕ)
    → extend (extend hist total xs) (total + length xs) ys i ≡ extend hist total (xs ++ ys) i
unfolding extend
extend-append_at hist total xs ys i = ground (
  arith,
  get_or-append_left xs ys (i - total) zero_sample,
  get_or-append_right xs ys (i - total) zero_sample,
  ap (λ j. get_or ys j zero_sample) {x = i - total - length xs} {y = i - (total + length xs)}
      (omega arith),
)

pub extend-append :
    (hist : ℕ → Sample) (total : ℕ) (xs ys : List Sample)
    → extend (extend hist total xs) (total + length xs) ys ≡ extend hist total (xs ++ ys)
extend-append hist total xs ys = fun_ext (extend-append_at hist total xs ys)

module _ (fl : FlashDevice) (works : Works fl) where
  -- One flash write: the first `n` staged records go to the end of the history.
  pub record Drained (hist : ℕ → Sample) (n : ℕ) (l l' : Log) : Type 0 where
    pub holds : Holds l'.mem l'.total_abs (extend hist l.total_abs (staged_from l 0 n))
    pub total_abs : l'.total_abs ≡ l.total_abs + n
    pub cur_count : l'.cur_count ≡ l.cur_count + n
    pub stage_tail : l'.stage_tail ≡ l.stage_tail + n
    pub stage_head : l'.stage_head ≡ l.stage_head
    pub stage : l'.stage ≡ l.stage
    pub active : l'.active ≡ l.active
    pub cur_slot : l'.cur_slot ≡ l.cur_slot
    pub cur_start : l'.cur_start ≡ l.cur_start
    pub dropped : l'.log_dropped ≡ l.log_dropped

  pub batch_size_lem :
      (l : Log)
      → DrainOk l
      → (batch_size l ≤ l.stage_head - l.stage_tail)
        × (batch_size l ≤ rec_capacity - l.total_abs % rec_capacity)
        × (l.stage_tail < l.stage_head → 0 < batch_size l)
  unfolding batch_size
  batch_size_lem l v =
      let q = v.stage_ok in
      let e : sub32 l.stage_head l.stage_tail ≡ l.stage_head - l.stage_tail =
        omega (arith, q.ordered, q.no_wrap) in
      rw e (omega arith, omega arith, λ h. omega arith)

  pub write_batch-Drained :
      (hist : ℕ → Sample) (n : ℕ) (l : Log)
      → DrainOk l
      → n ≤ l.stage_head - l.stage_tail
      → n ≤ rec_capacity - l.total_abs % rec_capacity
      → Holds l.mem l.total_abs hist
      → Drained hist n l (write_batch fl n l)
  unfolding write_batch batch_of
  write_batch-Drained hist n l v fits short h =
      let q = v.stage_ok in
      let batch = staged_from l 0 n in
      let size : length batch ≡ n = length-tabulate _ 0 n in
      let w =
        works.writes l.mem (data_base + l.total_abs % rec_capacity * 16) (batch_bytes batch)
          (omega (arith, length-batch_bytes batch, size)) in
      let total : l.total_abs + length batch ≡ u32 (l.total_abs + n) =
        omega (arith, size, v.small) in
      record {
        holds =
            subst (λ m. Holds m (u32 (l.total_abs + n)) (extend hist l.total_abs batch))
              (sym (ap (λ r. r.1) w))
              (subst
                (λ t.
                  Holds
                    (patch l.mem (data_base + l.total_abs % rec_capacity * 16) (batch_bytes batch))
                    t (extend hist l.total_abs batch))
                total (Holds-patch l.mem l.total_abs hist batch (omega (arith, size)) h));
        total_abs = omega (arith, v.small);
        cur_count = omega (arith, v.count_small);
        stage_tail = omega (arith, q.ordered, q.no_wrap);
        stage_head = refl;
        stage = refl;
        active = refl;
        cur_slot = refl;
        cur_start = refl;
        dropped = refl;
      }

  -- A refresh of the directory changes nothing that a batch accounts for.
  Drained-Untouched :
      (hist : ℕ → Sample) (n : ℕ) (l l' l'' : Log)
      → Drained hist n l l'
      → Untouched fl works l' l''
      → Drained hist n l l''
  Drained-Untouched hist n l l' l'' d u = record {
    holds =
        subst (λ t. Holds l''.mem t (extend hist l.total_abs (staged_from l 0 n))) (sym u.total_abs)
          (SameData-Holds l'.mem l''.mem l'.total_abs _ u.same_data d.holds);
    total_abs = u.total_abs ∙ d.total_abs;
    cur_count = u.cur_count ∙ d.cur_count;
    stage_tail = u.stage_tail ∙ d.stage_tail;
    stage_head = u.stage_head ∙ d.stage_head;
    stage = u.stage ∙ d.stage;
    active = u.active ∙ d.active;
    cur_slot = u.cur_slot ∙ d.cur_slot;
    cur_start = u.cur_start ∙ d.cur_start;
    dropped = u.log_dropped ∙ d.dropped;
  }

  refresh_when_due-Untouched :
      (l : Log) → l.cur_slot < max_sessions → Untouched fl works l (refresh_when_due fl l)
  unfolding refresh_when_due
  refresh_when_due-Untouched l h =
      elim (Bool-cases (leb dir_refresh_recs (sub32 l.cur_count l.last_dir_refresh))) [
        | inr e ↦ rw e (untouched fl works l)
        | inl e ↦ rw e (
            Untouched-trans fl works l _ _ (dir_refresh_current-Untouched fl works false l h)
              (invalidate_consumed-Untouched fl works (dir_refresh_current fl false l)))
      ]

  -- One batch, directory included.
  pub writer_drain_batch-Drained :
      (hist : ℕ → Sample) (l : Log)
      → DrainOk l
      → l.stage_tail < l.stage_head
      → Holds l.mem l.total_abs hist
      → Drained hist (batch_size l) l (writer_drain_batch fl l)
  unfolding writer_drain_batch
  writer_drain_batch-Drained hist l v some_staged h =
      let q = v.stage_ok in
      let (fits, short, more) = batch_size_lem l v in
      let d = write_batch-Drained hist (batch_size l) l v fits short h in
      let ne : (sub32 l.stage_head l.stage_tail == 0) ≡ false = ground (arith, q.no_wrap) in
      rw ne (
        Drained-Untouched hist (batch_size l) l _ _ d
          (refresh_when_due-Untouched _ (subst (λ s. s < max_sessions) (sym d.cur_slot) v.slot_ok)))

  pub Drained-DrainOk :
      (hist : ℕ → Sample) (n : ℕ) (l l' : Log)
      → DrainOk l
      → n ≤ l.stage_head - l.stage_tail
      → Drained hist n l l'
      → DrainOk l'
  Drained-DrainOk hist n l l' v fits d =
      let q = v.stage_ok in
      record {
        stage_ok = record {
          ordered = omega (arith, q.ordered, d.stage_tail, d.stage_head);
          no_wrap = omega (arith, q.no_wrap, d.stage_head);
          bounded = omega (arith, q.bounded, d.stage_tail, d.stage_head);
          dropped_fits = omega (arith, q.dropped_fits, d.dropped);
        };
        slot_ok = omega (arith, v.slot_ok, d.cur_slot);
        small = omega (arith, v.small, d.total_abs, d.stage_head, d.stage_tail);
        count_small = omega (arith, v.count_small, d.cur_count, d.stage_head, d.stage_tail);
      }

  -- The next records staged begin where the batch ended.
  pub staged-split :
      (hist : ℕ → Sample) (a b : ℕ) (l l' : Log)
      → Drained hist a l l'
      → staged_from l 0 (a + b) ≡ staged_from l 0 a ++ staged_from l' 0 b
  staged-split hist a b l l' d =
      tabulate-add _ 0 a b
      ∙ ap (λ t. staged_from l 0 a ++ t)
          (tabulate-ext (λ k. l.stage (u32 (l.stage_tail + k) % stage_n))
            (λ k. l'.stage (u32 (l'.stage_tail + k) % stage_n)) (0 + a) 0 b
            (λ j p.
              ap (λ t. l.stage (u32 t % stage_n)) {x = l.stage_tail + (0 + a + j)}
                {y = l'.stage_tail + (0 + j)} (omega (arith, d.stage_tail))
              ∙ ap (λ (f : ℕ → Sample). f (u32 (l'.stage_tail + (0 + j)) % stage_n)) (sym d.stage)))

  Drained-trans :
      (hist : ℕ → Sample) (a b : ℕ) (l l' l'' : Log)
      → Drained hist a l l'
      → Drained (extend hist l.total_abs (staged_from l 0 a)) b l' l''
      → Drained hist (a + b) l l''
  Drained-trans hist a b l l' l'' p q =
      let size : length (staged_from l 0 a) ≡ a = length-tabulate _ 0 a in
      record {
        holds =
            subst (Holds l''.mem l''.total_abs)
              (ap (λ t. extend (extend hist l.total_abs (staged_from l 0 a)) t (staged_from l' 0 b))
                  {y = l.total_abs + length (staged_from l 0 a)} (omega (arith, p.total_abs, size))
                ∙ extend-append hist l.total_abs (staged_from l 0 a) (staged_from l' 0 b)
                ∙ ap (extend hist l.total_abs) (sym (staged-split hist a b l l' p)))
              q.holds;
        total_abs = omega (arith, p.total_abs, q.total_abs);
        cur_count = omega (arith, p.cur_count, q.cur_count);
        stage_tail = omega (arith, p.stage_tail, q.stage_tail);
        stage_head = q.stage_head ∙ p.stage_head;
        stage = q.stage ∙ p.stage;
        active = q.active ∙ p.active;
        cur_slot = q.cur_slot ∙ p.cur_slot;
        cur_start = q.cur_start ∙ p.cur_start;
        dropped = q.dropped ∙ p.dropped;
      }

  nothing_left :
      (hist : ℕ → Sample) (l : Log)
      → Holds l.mem l.total_abs hist
      → l.stage_head ≡ l.stage_tail
      → Drained hist (l.stage_head - l.stage_tail) l l
  nothing_left hist l h e = record {
    holds = λ b lo hi. h b lo hi ∙ sym (history_byte-extend_old hist l.total_abs _ b hi);
    total_abs = omega (arith, e);
    cur_count = omega (arith, e);
    stage_tail = omega (arith, e);
    stage_head = refl;
    stage = refl;
    active = refl;
    cur_slot = refl;
    cur_start = refl;
    dropped = refl;
  }

  pub left_or_done :
      (l : Log) → StageOk l → (l.stage_tail < l.stage_head) ⊎ (l.stage_head ≡ l.stage_tail)
  left_or_done l q = omega (arith, q.ordered)

  writer_run-done :
      (rounds : ℕ) (l : Log) → l.stage_head ≡ l.stage_tail → writer_run fl (suc rounds) l ≡ l
  unfolding writer_run
  writer_run-done rounds l e = ground arith

  writer_run-step :
      (rounds : ℕ) (l : Log)
      → l.active ≡ true
      → l.stage_tail < l.stage_head
      → writer_run fl (suc rounds) l ≡ writer_run fl rounds (writer_drain_batch fl l)
  unfolding writer_run
  writer_run-step rounds l on more = ground arith

  -- The writer of an active session on a working device: in no more rounds than records are staged
  -- it moves every staged record to the end of the history in flash, in order, leaves the stage
  -- empty, and counts each of them in `total_abs` and `cur_count`.
  pub writer_run-Drained :
      (hist : ℕ → Sample) (rounds : ℕ) (l : Log)
      → DrainOk l
      → l.active ≡ true
      → Holds l.mem l.total_abs hist
      → l.stage_head - l.stage_tail ≤ rounds
      → Drained hist (l.stage_head - l.stage_tail) l (writer_run fl rounds l)
  unfolding writer_run
  writer_run-Drained hist zero l v on h enough =
      nothing_left hist l h (omega (arith, v.stage_ok.ordered))
  writer_run-Drained hist (suc rounds) l v on h enough = elim (left_or_done l v.stage_ok) [
    | inr e ↦
        subst (Drained hist (l.stage_head - l.stage_tail) l) (sym (writer_run-done rounds l e))
          (nothing_left hist l h e)
    | inl more ↦
        let d = writer_drain_batch-Drained hist l v more h in
        let (fits, short, some) = batch_size_lem l v in
        let n = batch_size l in
        let l' = writer_drain_batch fl l in
        let rest =
          writer_run-Drained (extend hist l.total_abs (staged_from l 0 n)) rounds l'
            (Drained-DrainOk hist n l l' v fits d) (d.active ∙ on) d.holds
            (omega (arith, d.stage_head, d.stage_tail, some more)) in
        subst (Drained hist (l.stage_head - l.stage_tail) l)
          (sym (writer_run-step rounds l on more))
          (subst (λ k. Drained hist k l (writer_run fl rounds l')) {y = l.stage_head - l.stage_tail}
            (omega (arith, d.stage_head, d.stage_tail, fits))
            (Drained-trans hist n (l'.stage_head - l'.stage_tail) l l' _ d rest))
  ]
