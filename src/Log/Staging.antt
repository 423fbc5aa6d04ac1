-- ===== src/Log/Staging.antt =====
-- The staging ring of imu_log.c as a bounded queue.
use moamoa_caterpillar_firmw.Base.{
  ℕ, suc, ◌+◌, ◌-◌, ◌%◌, ◌≤◌, ◌<◌, ◌≡◌, ◌≢◌, refl, ap, ap₂, sym, subst, ◌∙◌, ◌⊎◌, inl, inr, true,
  List, [], ◌∷◌, ◌++◌, append-nil, append_assoc, arith, length, length-tabulate, take, take-nil,
  tabulate, tabulate-ext, tabulate-add, u32, sub32,
}
use moamoa_caterpillar_firmw.Imu.Shared.{Sample, update}
use moamoa_caterpillar_firmw.Log.State.{Log}
use moamoa_caterpillar_firmw.Log.Writer.{stage_n, append_one, append_all, imu_log_append}

-- The records staged, oldest first.
abbrev pub staged_from : Log → ℕ → ℕ → List Sample
staged_from l i n = tabulate (λ k. l.stage (u32 (l.stage_tail + k) % stage_n)) i n

abbrev pub staged : Log → List Sample
staged l = staged_from l 0 (sub32 l.stage_head l.stage_tail)

-- The counters are in order, neither has wrapped yet, and no more is staged than fits.
pub record StageOk (l : Log) : Type 0 where
  pub ordered : l.stage_tail ≤ l.stage_head
  pub no_wrap : l.stage_head < 4_294_967_296
  pub bounded : l.stage_head ≤ l.stage_tail + stage_n
  pub dropped_fits : l.log_dropped < 4_294_967_296

pub length-staged : (l : Log) → StageOk l → length (staged l) ≡ l.stage_head - l.stage_tail
length-staged l v =
    length-tabulate _ 0 (sub32 l.stage_head l.stage_tail) ∙ omega (arith, v.ordered, v.no_wrap)

update_ne : (f : ℕ → Sample) (i j : ℕ) (s : Sample) → i ≢ j → update f i s j ≡ f j
unfolding update
update_ne f i j s h = ground arith

update_self : (f : ℕ → Sample) (i j : ℕ) (s : Sample) → i ≡ j → update f i s j ≡ s
unfolding update
update_self f i j s h = ground arith

append_one_full :
    (l : Log) (s : Sample)
    → StageOk l
    → l.stage_head ≡ l.stage_tail + stage_n
    → append_one l s ≡ record l { log_dropped = u32 (l.log_dropped + 1) }
unfolding append_one
append_one_full l s v e = ground (arith, v.no_wrap)

append_one_room :
    (l : Log) (s : Sample)
    → StageOk l
    → l.stage_head < l.stage_tail + stage_n
    → append_one l s ≡ record l {
      stage = update l.stage (l.stage_head % stage_n) s;
      stage_head = u32 (l.stage_head + 1);
    }
unfolding append_one
append_one_room l s v e = ground (arith, v.no_wrap, v.ordered)

-- A record that finds room is staged behind the others.
staged-push :
    (l : Log) (s : Sample)
    → StageOk l
    → l.stage_head < l.stage_tail + stage_n
    → l.stage_head + 1 < 4_294_967_296
    → let l' = record l {
      stage = update l.stage (l.stage_head % stage_n) s;
      stage_head = u32 (l.stage_head + 1);
    } in
      staged l' ≡ staged l ++ s ∷ []
staged-push l s v room small =
    let n = l.stage_head - l.stage_tail in
    let e1 : sub32 (u32 (l.stage_head + 1)) l.stage_tail ≡ n + 1 = omega (arith, v.ordered) in
    let e2 : sub32 l.stage_head l.stage_tail ≡ n = omega (arith, v.ordered, v.no_wrap) in
    rw (e1, e2)
      (tabulate-add _ 0 n 1
        ∙ ap₂ ◌++◌
            (tabulate-ext _ _ 0 0 n (λ j p.
              update_ne l.stage (l.stage_head % stage_n) (u32 (l.stage_tail + (0 + j)) % stage_n) s
                (omega (arith, v.ordered, v.no_wrap))))
            (ap (λ x. x ∷ [])
              (update_self l.stage (l.stage_head % stage_n) (u32 (l.stage_tail + (0 + n)) % stage_n)
                s (omega (arith, v.ordered, v.no_wrap)))))

-- The room left.
abbrev pub room : Log → ℕ
room l = stage_n - (l.stage_head - l.stage_tail)

pub record Appended (l : Log) (ss : List Sample) (l' : Log) : Type 0 where
  pub ok : StageOk l'
  pub queue : staged l' ≡ staged l ++ take (room l) ss
  pub dropped : l'.log_dropped ≡ u32 (l.log_dropped + (length ss - room l))
  pub tail_same : l'.stage_tail ≡ l.stage_tail
  pub mem_same : l'.mem ≡ l.mem
  pub total_same : l'.total_abs ≡ l.total_abs

append_full :
    (l : Log) (s : Sample) (ss : List Sample) (l' : Log)
    → StageOk l
    → l.stage_head ≡ l.stage_tail + stage_n
    → Appended (append_one l s) ss l'
    → Appended l (s ∷ ss) l'
append_full l s ss l' v full a =
    let b = subst (λ m. Appended m ss l') (append_one_full l s v full) a in
    let none_left : room l ≡ 0 = omega (arith, full) in
    record {
      ok = b.ok;
      queue =
          b.queue
          ∙ ap (λ n. staged l ++ take n ss) none_left
          ∙ ap (λ n. staged l ++ take n (s ∷ ss)) (sym none_left);
      dropped = omega (arith, b.dropped, none_left);
      tail_same = b.tail_same;
      mem_same = b.mem_same;
      total_same = b.total_same;
    }

append_room :
    (l : Log) (s : Sample) (ss : List Sample) (l' : Log)
    → StageOk l
    → l.stage_head < l.stage_tail + stage_n
    → l.stage_head + 1 < 4_294_967_296
    → Appended (append_one l s) ss l'
    → Appended l (s ∷ ss) l'
append_room l s ss l' v free small a =
    let b = subst (λ m. Appended m ss l') (append_one_room l s v free) a in
    let left = stage_n - (u32 (l.stage_head + 1) - l.stage_tail) in
    let more : room l ≡ suc left = omega (arith, v.ordered) in
    record {
      ok = b.ok;
      queue =
          b.queue
          ∙ ap (λ t. t ++ take left ss) (staged-push l s v free small)
          ∙ append_assoc (staged l) (s ∷ []) (take left ss)
          ∙ ap (λ n. staged l ++ take n (s ∷ ss)) (sym more);
      dropped = omega (arith, b.dropped, more);
      tail_same = b.tail_same;
      mem_same = b.mem_same;
      total_same = b.total_same;
    }

append_one-StageOk :
    (l : Log) (s : Sample) → StageOk l → l.stage_head + 1 < 4_294_967_296 → StageOk (append_one l s)
unfolding append_one
append_one-StageOk l s v small = ground (arith, v.ordered, v.bounded)

append_one-head :
    (l : Log) (s : Sample)
    → StageOk l
    → l.stage_head + 1 < 4_294_967_296
    → (append_one l s).stage_head ≤ l.stage_head + 1
unfolding append_one
append_one-head l s v small = ground arith

full_or_room :
    (l : Log)
    → StageOk l
    → (l.stage_head ≡ l.stage_tail + stage_n) ⊎ (l.stage_head < l.stage_tail + stage_n)
full_or_room l v = omega (arith, v.bounded)

pub append_all-Appended :
    (ss : List Sample) (l : Log)
    → StageOk l
    → l.stage_head + length ss < 4_294_967_296
    → Appended l ss (append_all l ss)
unfolding append_all
append_all-Appended [] l v small = record {
  ok = v;
  queue = sym (ap (λ t. staged l ++ t) (take-nil (room l)) ∙ append-nil (staged l));
  dropped = omega (arith, v.dropped_fits);
  tail_same = refl;
  mem_same = refl;
  total_same = refl;
}
append_all-Appended (s ∷ ss) l v small =
    let h = append_one-head l s v (omega arith) in
    let rest =
      append_all-Appended ss (append_one l s) (append_one-StageOk l s v (omega arith))
        (omega (arith, h)) in
    elim (full_or_room l v) [
      | inl full ↦ append_full l s ss _ v full rest
      | inr free ↦ append_room l s ss _ v free (omega arith) rest
    ]

pub append_active :
    (l : Log) (ss : List Sample) → l.active ≡ true → imu_log_append l ss ≡ append_all l ss
unfolding imu_log_append
append_active l ss on = ground arith

-- `imu_log_append` during a session stages the records in order as long as there is room in the
-- 1536 cells, counts each of the others in `log_dropped`, and touches neither flash nor counters;
-- the staging counters must not reach their wrap-around.
pub imu_log_append-Appended :
    (l : Log) (ss : List Sample)
    → l.active ≡ true
    → StageOk l
    → l.stage_head + length ss < 4_294_967_296
    → Appended l ss (imu_log_append l ss)
imu_log_append-Appended l ss on v small =
    subst (Appended l ss) (sym (append_active l ss on)) (append_all-Appended ss l v small)
