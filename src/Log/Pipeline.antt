-- ===== src/Log/Pipeline.antt =====
-- src/imu/imu_log.c during a session: the pump's appends and the writer's batches, in any order,
-- against the flat history of records.
use moamoa_caterpillar_firmw.Base.{
  ℕ, ◌+◌, ◌-◌, ◌≤◌, ◌<◌, ◌≡◌, refl, ap, sym, subst, ◌∙◌, inl, inr, List, [], ◌∷◌, ◌++◌, append-nil,
  append_assoc, arith, length, length-append, length-tabulate, length-take, take, ◌%◌, u32, sub32,
}
use moamoa_caterpillar_firmw.Flash.{FlashDevice, Works}
use moamoa_caterpillar_firmw.Imu.Shared.{Sample}
use moamoa_caterpillar_firmw.Log.State.{Log}
use moamoa_caterpillar_firmw.Log.Writer.{imu_log_append, batch_size, writer_drain_batch, stage_n}
use moamoa_caterpillar_firmw.Log.Contents.{Holds, extend}
use moamoa_caterpillar_firmw.Log.Staging.{
  StageOk, staged, staged_from, room, append_active, imu_log_append-Appended,
}
use moamoa_caterpillar_firmw.Log.Drain.{
  DrainOk, writer_drain_batch-Drained, batch_size_lem, staged-split, extend-append, left_or_done,
  Drained-DrainOk,
}
use moamoa_caterpillar_firmw.Log.Events.{
  Event, happen, run_session, offered, none_left, Part-take, Part-append, length-Part, Roomy, Piped,
  append_all-frame, Holds-same, append, batch,
}

append-Piped :
    (hist : ℕ → Sample) (n : ℕ) (l : Log) (ss : List Sample)
    → Roomy (length ss + n) l
    → Holds l.mem l.total_abs hist
    → Piped hist l ss (imu_log_append l ss) × Roomy n (imu_log_append l ss)
append-Piped hist n l ss v h =
    let l' = imu_log_append l ss in
    let a = imu_log_append-Appended l ss v.active v.stage_ok (omega (arith, v.head_small)) in
    let all = append_active l ss v.active in
    let (on, slot, count, head) = append_all-frame ss l in
    let head' : l'.stage_head ≤ l.stage_head + length ss =
      subst (λ (m : Log). m.stage_head ≤ l.stage_head + length ss) (sym all) head in
    let count' = ap (λ (m : Log). m.cur_count) all ∙ count in
    let slot' = ap (λ (m : Log). m.cur_slot) all ∙ slot in
    (
      record {
        flushed = [];
        kept_ones = take (room l) ss;
        part = Part-take (room l) ss;
        queue = a.queue;
        holds = Holds-same l l' hist a.mem_same a.total_same h;
        total = omega (arith, a.total_same);
        dropped = omega (arith, a.dropped, length-take (room l) ss);
      },
      record {
        active = ap (λ (m : Log). m.active) all ∙ on ∙ v.active;
        stage_ok = a.ok;
        slot_ok = omega (arith, slot', v.slot_ok);
        head_small = omega (arith, head', v.head_small);
        total_small =
            omega (arith, head', a.tail_same, a.total_same, v.total_small, v.stage_ok.ordered);
        count_small = omega (arith, head', a.tail_same, count', v.count_small, v.stage_ok.ordered);
      },
    )

Piped-trans :
    (hist : ℕ → Sample) (l l' l'' : Log) (xs ys : List Sample) (p : Piped hist l xs l')
    → Piped (extend hist l.total_abs p.flushed) l' ys l''
    → Piped hist l (xs ++ ys) l''
Piped-trans hist l l' l'' xs ys p q = record {
  flushed = p.flushed ++ q.flushed;
  kept_ones = p.kept_ones ++ q.kept_ones;
  part = Part-append p.part q.part;
  queue =
      append_assoc p.flushed q.flushed (staged l'')
      ∙ ap (λ t. p.flushed ++ t) q.queue
      ∙ sym (append_assoc p.flushed (staged l') q.kept_ones)
      ∙ ap (λ t. t ++ q.kept_ones) p.queue
      ∙ append_assoc (staged l) p.kept_ones q.kept_ones;
  holds =
      subst (Holds l''.mem l''.total_abs)
        (ap (λ t. extend (extend hist l.total_abs p.flushed) t q.flushed) p.total
          ∙ extend-append hist l.total_abs p.flushed q.flushed)
        q.holds;
  total = omega (arith, p.total, q.total, length-append p.flushed q.flushed);
  dropped = omega (
    arith,
    p.dropped,
    q.dropped,
    length-Part p.part,
    length-Part q.part,
    length-append xs ys,
    length-append p.kept_ones q.kept_ones,
  );
}

nothing-Piped :
    (hist : ℕ → Sample) (l : Log) → StageOk l → Holds l.mem l.total_abs hist → Piped hist l [] l
nothing-Piped hist l v h = record {
  flushed = [];
  kept_ones = [];
  part = none_left;
  queue = sym (append-nil (staged l));
  holds = Holds-same l l hist refl refl h;
  total = omega arith;
  dropped = omega (arith, v.dropped_fits);
}

module _ (fl : FlashDevice) (works : Works fl) where
  batch_none : (l : Log) → l.stage_head ≡ l.stage_tail → StageOk l → writer_drain_batch fl l ≡ l
  unfolding writer_drain_batch
  batch_none l e v = ground (arith, e, v.no_wrap)

  Roomy-DrainOk : (n : ℕ) (l : Log) → Roomy n l → DrainOk l
  Roomy-DrainOk n l v = record {
    stage_ok = v.stage_ok;
    slot_ok = v.slot_ok;
    small = omega (arith, v.total_small);
    count_small = omega (arith, v.count_small);
  }

  some-Piped :
      (hist : ℕ → Sample) (n : ℕ) (l : Log)
      → Roomy n l
      → Holds l.mem l.total_abs hist
      → l.stage_tail < l.stage_head
      → Piped hist l [] (writer_drain_batch fl l) × Roomy n (writer_drain_batch fl l)
  some-Piped hist n l v h more =
      let l' = writer_drain_batch fl l in
      let ready = Roomy-DrainOk n l v in
      let d = writer_drain_batch-Drained fl works hist l ready more h in
      let k = batch_size l in
      let (fits, short, some) = batch_size_lem fl works l ready in
      let ready' = Drained-DrainOk fl works hist k l l' ready fits d in
      let left = l.stage_head - l.stage_tail - k in
      let e : sub32 l'.stage_head l'.stage_tail ≡ left =
        omega (arith, d.stage_head, d.stage_tail, v.stage_ok.ordered, v.stage_ok.no_wrap, fits) in
      let e' : k + left ≡ sub32 l.stage_head l.stage_tail =
        omega (arith, v.stage_ok.ordered, v.stage_ok.no_wrap, fits) in
      (
        record {
          flushed = staged_from l 0 k;
          kept_ones = [];
          part = none_left;
          queue =
              ap (λ c. staged_from l 0 k ++ staged_from l' 0 c) e
              ∙ sym (staged-split fl works hist k left l l' d)
              ∙ ap (staged_from l 0) e'
              ∙ sym (append-nil (staged l));
          holds = d.holds;
          total = omega (
            arith,
            d.total_abs,
            length-tabulate (λ i. l.stage (u32 (l.stage_tail + i) % stage_n)) 0 k,
          );
          dropped = omega (arith, d.dropped, v.stage_ok.dropped_fits);
        },
        record {
          active = d.active ∙ v.active;
          stage_ok = ready'.stage_ok;
          slot_ok = ready'.slot_ok;
          head_small = omega (arith, d.stage_head, v.head_small);
          total_small = omega (arith, d.stage_head, d.stage_tail, d.total_abs, fits, v.total_small);
          count_small = omega (arith, d.stage_head, d.stage_tail, d.cur_count, fits, v.count_small);
        },
      )

  batch-Piped :
      (hist : ℕ → Sample) (n : ℕ) (l : Log)
      → Roomy n l
      → Holds l.mem l.total_abs hist
      → Piped hist l [] (writer_drain_batch fl l) × Roomy n (writer_drain_batch fl l)
  batch-Piped hist n l v h = elim (left_or_done fl works l v.stage_ok) [
    | inl more ↦ some-Piped hist n l v h more
    | inr e ↦
        subst (λ m. Piped hist l [] m × Roomy n m) (sym (batch_none l e v.stage_ok))
          (nothing-Piped hist l v.stage_ok h, v)
  ]

  -- A session of a working device, for any order of the pump's appends and the writer's batches: the
  -- records that were kept are, in their order, a part of those that the pump handed over; the flash
  -- holds the history so far followed by the ones flushed, and these followed by the staged ones are
  -- the ones staged before followed by the ones kept; each other one is counted in `log_dropped`. So no
  -- record is lost silently, stored twice or out of its order. The counters must not wrap.
  pub run_session-Piped :
      (es : List Event) (hist : ℕ → Sample) (l : Log)
      → Roomy (length (offered es)) l
      → Holds l.mem l.total_abs hist
      → Piped hist l (offered es) (run_session fl es l)
  unfolding run_session offered happen
  run_session-Piped [] hist l v h = nothing-Piped hist l v.stage_ok h
  run_session-Piped (append ss ∷ es) hist l v h =
      let e = length-append ss (offered es) in
      let (p, v') = append-Piped hist (length (offered es)) l ss (subst (λ n. Roomy n l) e v) h in
      Piped-trans hist l _ _ ss (offered es) p (run_session-Piped es _ _ v' p.holds)
  run_session-Piped (batch ∷ es) hist l v h =
      let (p, v') = batch-Piped hist (length (offered es)) l v h in
      Piped-trans hist l _ _ [] (offered es) p (run_session-Piped es _ _ v' p.holds)
