-- ===== src/Imu/Spsc/Safety.antt =====
-- The invariant of the shared ring under the accesses of both cores.
use moamoa_caterpillar_firmw.Base.{
  ℕ, ◌+◌, ◌%◌, ◌≤◌, ◌<◌, ◌≡◌, refl, ap, ap₂, sym, ◌∙◌, inl, inr, Bool-cases, List, [], ◌∷◌, ◌++◌,
  append-nil, arith, length, length-append, tabulate, tabulate-add, min, ltb, ◌==◌, u32, sub32,
  ltb→lt, not_ltb→le,
}
use moamoa_caterpillar_firmw.Imu.Shared.{Sample, imu_ring_n}
use moamoa_caterpillar_firmw.Imu.Pump.{ConsumerPc, asleep, testing, copying}
use moamoa_caterpillar_firmw.Imu.Spsc.{
  System, producer_moves, pump_at, pump_moves, Step, sample, produce, wake, drain, Reach, here,
  next,
}
use moamoa_caterpillar_firmw.Imu.Spsc.Invariant.{
  ConsumerFits, Inv, ProducerFits-cong, ConsumerFits-cong, sample_found-Inv, pump_wakes-Inv,
  producer_at-Inv,
}

-- A step of the pump that hands nothing on and stores nothing.
pump_quiet :
    (pc : ConsumerPc) (t : System)
    → ConsumerFits pc t
    → Inv t
    → Inv (record t { consumer = pc; consumed = t.consumed + 0; delivered = t.delivered ++ [] })
pump_quiet pc t f v =
    let same : t.consumed + 0 ≡ t.consumed = omega arith in
    record {
      head_ok = v.head_ok;
      tail_ok = v.tail_ok ∙ ap u32 (sym same);
      ordered = omega (arith, v.ordered);
      bounded = omega (arith, v.bounded);
      kept = λ k lo hi. v.kept k (omega arith) hi;
      sent = append-nil t.delivered ∙ v.sent ∙ ap (tabulate t.history 0) (sym same);
      producer_fits = ProducerFits-cong t.producer t _ refl (omega arith) refl refl v.producer_fits;
      consumer_fits = ConsumerFits-cong pc t _ (omega arith) same (λ k q. refl) f;
    }

copying_starts :
    (head tail : ℕ) (t : System)
    → ConsumerFits (testing head tail) t
    → Inv t
    → ConsumerFits (copying head tail (min (sub32 head tail) 64) []) t
copying_starts head tail t f v = (
  f.0,
  (f.1.0, f.1.1, omega (arith, f.0, f.1.1, f.1.2, f.1.3, v.bounded), f.1.3),
  omega arith,
  refl,
)

-- The pump stores `tail` and hands its chunk on.
pump_publishes :
    (head tail n : ℕ) (chunk : List Sample) (t : System)
    → n ≤ length chunk
    → ConsumerFits (copying head tail n chunk) t
    → Inv t
    → Inv (record t {
      sh = record t.sh { tail = u32 (tail + n) };
      consumer = testing head (u32 (tail + n));
      consumed = t.consumed + length chunk;
      delivered = t.delivered ++ chunk;
    })
pump_publishes head tail n chunk t h f v =
    let full : length chunk ≡ n = omega (arith, f.2) in
    record {
      head_ok = v.head_ok;
      tail_ok = omega (arith, f.0, full);
      ordered = omega (arith, f.1.2, f.1.3, full);
      bounded = omega (arith, v.bounded);
      kept = λ k lo hi. v.kept k (omega arith) hi;
      sent =
          ap₂ ◌++◌ v.sent f.3
          ∙ ap (λ i. tabulate t.history 0 t.consumed ++ tabulate t.history i (length chunk))
              (omega arith)
          ∙ sym (tabulate-add t.history 0 t.consumed (length chunk));
      producer_fits = ProducerFits-cong t.producer t _ refl (omega arith) refl refl v.producer_fits;
      consumer_fits = (omega (arith, f.0, full), (f.1.0, f.1.1, omega (arith, f.1.2, full), f.1.3));
    }

-- The record that the pump copies next is the history's.
copying_grows :
    (head tail n : ℕ) (chunk : List Sample) (t : System)
    → length chunk < n
    → ConsumerFits (copying head tail n chunk) t
    → Inv t
    → ConsumerFits
        (copying head tail n (chunk ++ t.sh.ring (u32 (tail + length chunk) % imu_ring_n) ∷ []))
        t
copying_grows head tail n chunk t h f v = (
  f.0,
  f.1,
  omega (arith, longer),
  ap₂ ◌++◌ f.3 (ap (λ y. y ∷ []) next_record)
      ∙ sym (tabulate-add t.history t.consumed (length chunk) 1)
      ∙ ap (tabulate t.history t.consumed) (sym longer),
)
  where
    x : Sample
    x = t.sh.ring (u32 (tail + length chunk) % imu_ring_n)

    longer : length (chunk ++ x ∷ []) ≡ length chunk + 1
    longer = length-append chunk (x ∷ [])

    next_record : x ≡ t.history (t.consumed + length chunk)
    next_record =
        ap t.sh.ring (omega (arith, f.0))
        ∙ v.kept (t.consumed + length chunk) (omega arith) (omega (arith, f.1.2, f.1.3, h))

pump_at-Inv : (pc : ConsumerPc) (t : System) → ConsumerFits pc t → Inv t → Inv (pump_at pc t)
unfolding pump_at
pump_at-Inv asleep t f v = pump_quiet asleep t f v
pump_at-Inv (testing head tail) t f v = elim (Bool-cases (tail == head)) [
  | inl done ↦ rw done (pump_quiet asleep t tt v)
  | inr more ↦ rw more (pump_quiet _ t (copying_starts head tail t f v) v)
]
pump_at-Inv (copying head tail n chunk) t f v = elim (Bool-cases (ltb (length chunk) n)) [
  | inl more ↦ rw more (pump_quiet _ t (copying_grows head tail n chunk t (ltb→lt _ _ more) f v) v)
  | inr done ↦ rw done (pump_publishes head tail n chunk t (not_ltb→le _ _ done) f v)
]

Step-Inv : {t u : System} → Step t u → Inv t → Inv u
unfolding producer_moves pump_moves
Step-Inv {t} (sample s e) v = sample_found-Inv t s e v
Step-Inv {t} produce v = producer_at-Inv t.producer t v.producer_fits v
Step-Inv {t} (wake e) v = pump_wakes-Inv t v
Step-Inv {t} drain v = pump_at-Inv t.consumer t v.consumer_fits v

-- The invariant holds after any interleaving of the accesses of the two cores.
pub Reach-Inv : {t u : System} → Inv t → Reach t u → Inv u
Reach-Inv v here = v
Reach-Inv v (next r s) = Step-Inv s (Reach-Inv v r)

-- After any interleaving of the two cores' accesses, from a state in which the invariant holds:
-- what the pump has handed on is exactly the first records published, in order and each once; it
-- is never ahead of the sampler; and never more than the 2048 records of the ring lie between.
pub Reach-delivers :
    {t u : System}
    → Inv t
    → Reach t u
    → (u.delivered ≡ tabulate u.history 0 u.consumed)
      × (u.consumed ≤ u.produced)
      × (u.produced ≤ u.consumed + imu_ring_n)
Reach-delivers v r = let w = Reach-Inv v r in (w.sent, w.ordered, w.bounded)
