-- ===== src/Log/Events.antt =====
-- src/imu/imu_log.c during a session: the pump's appends and the writer's batches as events, and what
-- is to come of the records.
use moamoa_caterpillar_firmw.Base.{
  ℕ, zero, suc, ◌+◌, ◌-◌, ◌≤◌, ◌<◌, ◌≡◌, refl, sym, subst, ◌∙◌, true, List, [], ◌∷◌, ◌++◌, arith,
  length, take, u32,
}
use moamoa_caterpillar_firmw.Flash.{FlashDevice}
use moamoa_caterpillar_firmw.Imu.Shared.{Sample}
use moamoa_caterpillar_firmw.Log.Entry.{max_sessions}
use moamoa_caterpillar_firmw.Log.State.{Log}
use moamoa_caterpillar_firmw.Log.Writer.{append_one, append_all, imu_log_append, writer_drain_batch}
use moamoa_caterpillar_firmw.Log.Contents.{Holds, extend, history_byte-extend_old}
use moamoa_caterpillar_firmw.Log.Staging.{StageOk, staged}

-- What happens to the log while a session runs.
pub data Event : Type 0 where
  append : List Sample → Event
  batch : Event

module _ (fl : FlashDevice) where
  unfoldable pub happen : Event → Log → Log
  happen (append ss) l = imu_log_append l ss
  happen batch l = writer_drain_batch fl l

  unfoldable pub run_session : List Event → Log → Log
  unfolding happen
  run_session [] l = l
  run_session (e ∷ es) l = run_session es (happen e l)

-- The records that the pump handed over.
unfoldable pub offered : List Event → List Sample
offered [] = []
offered (append ss ∷ es) = ss ++ offered es
offered (batch ∷ es) = offered es

-- Some of the records, in their order.
pub data Part : List Sample → List Sample → Type 0 where
  none_left : Part [] []
  kept : {xs ys : List Sample} (s : Sample) → Part xs ys → Part (s ∷ xs) (s ∷ ys)
  lost : {xs ys : List Sample} (s : Sample) → Part xs ys → Part xs (s ∷ ys)

Part-none : (ys : List Sample) → Part [] ys
Part-none [] = none_left
Part-none (y ∷ ys) = lost y (Part-none ys)

pub Part-take : (n : ℕ) (ys : List Sample) → Part (take n ys) ys
Part-take zero ys = Part-none ys
Part-take (suc n) [] = none_left
Part-take (suc n) (y ∷ ys) = kept y (Part-take n ys)

pub Part-append : {a b c d : List Sample} → Part a b → Part c d → Part (a ++ c) (b ++ d)
Part-append none_left q = q
Part-append (kept s p) q = kept s (Part-append p q)
Part-append (lost s p) q = lost s (Part-append p q)

pub length-Part : {xs ys : List Sample} → Part xs ys → length xs ≤ length ys
length-Part none_left = omega arith
length-Part (kept s p) = omega (arith, length-Part p)
length-Part (lost s p) = omega (arith, length-Part p)

-- The log is in order, a session runs, and no counter wraps for `n` more records.
pub record Roomy (n : ℕ) (l : Log) : Type 0 where
  pub active : l.active ≡ true
  pub stage_ok : StageOk l
  pub slot_ok : l.cur_slot < max_sessions
  pub head_small : l.stage_head + n < 4_294_967_296
  pub total_small : l.total_abs + (l.stage_head - l.stage_tail) + n < 4_294_967_296
  pub count_small : l.cur_count + (l.stage_head - l.stage_tail) + n < 4_294_967_296

-- What came of the records that were offered: those that were kept are, in their order, a part of
-- them; the ones flushed to the end of the history in flash, followed by the ones that are staged, are
-- the ones staged before followed by the ones kept; and each other one is counted.
pub record Piped (hist : ℕ → Sample) (l : Log) (ss : List Sample) (l' : Log) : Type 0 where
  pub flushed : List Sample
  pub kept_ones : List Sample
  pub part : Part kept_ones ss
  pub queue : flushed ++ staged l' ≡ staged l ++ kept_ones
  pub holds : Holds l'.mem l'.total_abs (extend hist l.total_abs flushed)
  pub total : l'.total_abs ≡ l.total_abs + length flushed
  pub dropped : l'.log_dropped ≡ u32 (l.log_dropped + (length ss - length kept_ones))

append_one-frame :
    (l : Log) (s : Sample)
    → ((append_one l s).active ≡ l.active)
      × ((append_one l s).cur_slot ≡ l.cur_slot)
      × ((append_one l s).cur_count ≡ l.cur_count)
      × ((append_one l s).stage_head ≤ l.stage_head + 1)
unfolding append_one
append_one-frame l s = ground arith

pub append_all-frame :
    (ss : List Sample) (l : Log)
    → ((append_all l ss).active ≡ l.active)
      × ((append_all l ss).cur_slot ≡ l.cur_slot)
      × ((append_all l ss).cur_count ≡ l.cur_count)
      × ((append_all l ss).stage_head ≤ l.stage_head + length ss)
unfolding append_all
append_all-frame [] l = (refl, refl, refl, omega arith)
append_all-frame (s ∷ ss) l =
    let (a, b, c, d) = append_one-frame l s in
    let (a', b', c', d') = append_all-frame ss (append_one l s) in
    (a' ∙ a, b' ∙ b, c' ∙ c, omega (arith, d, d'))

pub Holds-same :
    (l l' : Log) (hist : ℕ → Sample)
    → l'.mem ≡ l.mem
    → l'.total_abs ≡ l.total_abs
    → Holds l.mem l.total_abs hist
    → Holds l'.mem l'.total_abs (extend hist l.total_abs [])
Holds-same l l' hist m t h =
    subst (λ mem. Holds mem l'.total_abs (extend hist l.total_abs [])) (sym m)
      (subst (λ n. Holds l.mem n (extend hist l.total_abs [])) (sym t)
        (λ b lo hi. h b lo hi ∙ sym (history_byte-extend_old hist l.total_abs [] b hi)))
