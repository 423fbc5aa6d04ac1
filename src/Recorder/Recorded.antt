-- ===== src/Recorder/Recorded.antt =====
-- What becomes of the records of a session: from the sampler's stores to the flash.
use moamoa_caterpillar_firmw.Base.{
  ℕ, ◌+◌, ◌-◌, ◌≤◌, ◌≡◌, ap, sym, subst, ◌∙◌, List, [], ◌∷◌, ◌++◌, arith, length, length-append,
  length-tabulate, tabulate, tabulate-add, u32,
}
use moamoa_caterpillar_firmw.Flash.{FlashDevice, Works}
use moamoa_caterpillar_firmw.Imu.Shared.{Sample}
use moamoa_caterpillar_firmw.Imu.Spsc.Safety.{Reach-Inv}
use moamoa_caterpillar_firmw.Imu.Spsc.Invariant.{Inv}
use moamoa_caterpillar_firmw.Log.State.{Log}
use moamoa_caterpillar_firmw.Log.Contents.{Holds}
use moamoa_caterpillar_firmw.Log.Pipeline.{run_session-Piped}
use moamoa_caterpillar_firmw.Log.Events.{offered, Roomy, Piped}
use moamoa_caterpillar_firmw.Recorder.{looping, Recorder, Reach}
use moamoa_caterpillar_firmw.Recorder.Runs.{waiting, Split, Reach-Split}

Roomy-less : (m n : ℕ) (l : Log) → n ≤ m → Roomy m l → Roomy n l
Roomy-less m n l h v = record {
  active = v.active;
  stage_ok = v.stage_ok;
  slot_ok = v.slot_ok;
  head_small = omega (arith, h, v.head_small);
  total_small = omega (arith, h, v.total_small);
  count_small = omega (arith, h, v.count_small);
}

-- A tail is left when the same front is taken off.
same_tail : (a b c d : List Sample) → length a ≡ length c → a ++ b ≡ c ++ d → b ≡ d
same_tail [] b [] d h e = e
same_tail [] b (y ∷ c) d h e = absurd (omega arith)
same_tail (x ∷ a) b [] d h e = absurd (omega arith)
same_tail (x ∷ a) b (y ∷ c) d h e = same_tail a b c d (omega arith) (cc)

-- The records that the sampler published and the pump took are, in their order, those that were
-- given to the log and then the chunk in the pump's hand; the log's account of the given ones is
-- complete; and they are counted.
pub record Recorded (hist : ℕ → Sample) (t u : Recorder) : Type 0 where
  pub given : List Sample
  pub published :
      given ++ waiting u.hand
      ≡ tabulate u.ring.history t.ring.consumed (u.ring.consumed - t.ring.consumed)
  pub piped : Piped hist t.log given u.log
  pub counted : u32 u.drained_total ≡ u32 (t.drained_total + (u.ring.consumed - t.ring.consumed))

taken :
    (fl : FlashDevice) (t u : Recorder) (s : Split fl t u)
    → Inv t.ring
    → (offered s.events ++ waiting u.hand
        ≡ tabulate u.ring.history t.ring.consumed (u.ring.consumed - t.ring.consumed))
      × (length (offered s.events ++ waiting u.hand) ≡ u.ring.consumed - t.ring.consumed)
taken fl t u s v =
    let w = Reach-Inv v s.ring in
    let more = offered s.events ++ waiting u.hand in
    let c = t.ring.consumed in
    let front : length t.ring.delivered ≡ c =
      ap length v.sent ∙ length-tabulate t.ring.history 0 c in
    let whole : length u.ring.delivered ≡ u.ring.consumed =
      ap length w.sent ∙ length-tabulate u.ring.history 0 u.ring.consumed in
    let size : c + length more ≡ u.ring.consumed =
      omega (arith, front, whole, ap length s.given, length-append t.ring.delivered more) in
    let count : u.ring.consumed ≡ c + (u.ring.consumed - c) = omega (arith, size) in
    (
      same_tail t.ring.delivered more (tabulate u.ring.history 0 c) _
            (omega (arith, front, length-tabulate u.ring.history 0 c))
            (sym s.given
              ∙ w.sent
              ∙ ap (tabulate u.ring.history 0) count
              ∙ tabulate-add u.ring.history 0 c (u.ring.consumed - c))
          ∙ ap (λ i. tabulate u.ring.history i (u.ring.consumed - c)) (omega arith),
      omega (arith, size),
    )

-- From the sampler to the flash of a working device, for any interleaving of the sampler's accesses
-- to the ring, the pump's, its calls of the log and the stream, and the writer's batches, while a
-- session runs: the records published and taken are, each once and in order, those given to the log
-- and the chunk in the pump's hand; of the given ones the flash and the staging ring hold a part in
-- order behind what was there before, and `log_dropped` counts each other one; `drained_total` counts
-- the ones taken, modulo 2 ^ 32. At the start the ring's invariant holds, the pump's hand is empty,
-- and no counter of the log wraps for as many records.
pub Reach-Recorded :
    (fl : FlashDevice) (works : Works fl) (hist : ℕ → Sample) (t u : Recorder)
    → Inv t.ring
    → t.hand ≡ looping
    → Roomy (u.ring.consumed - t.ring.consumed) t.log
    → Holds t.log.mem t.log.total_abs hist
    → Reach fl t u
    → Recorded hist t u
Reach-Recorded fl works hist t u v e room h r =
    let s = Reach-Split fl e r in
    let (records, size) = taken fl t u s v in
    let enough : length (offered s.events) ≤ u.ring.consumed - t.ring.consumed =
      omega (arith, size, length-append (offered s.events) (waiting u.hand)) in
    record {
      given = offered s.events;
      published = records;
      piped =
          subst (Piped hist t.log (offered s.events)) (sym s.ran)
            (run_session-Piped fl works s.events hist t.log (Roomy-less _ _ t.log enough room) h);
      counted = omega (arith, s.counted, size);
    }
