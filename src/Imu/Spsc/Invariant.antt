-- ===== src/Imu/Spsc/Invariant.antt =====
-- The invariant of the shared ring, and the sampler's accesses: flpr/src/main.c.
use moamoa_caterpillar_firmw.Base.{
  ℕ, ◌+◌, ◌%◌, ◌≤◌, ◌<◌, ◌≡◌, refl, ap, sym, subst, ◌∙◌, ◌≢◌, ◌⊎◌, inl, inr, Bool-cases, arith,
  length, tabulate, tabulate-ext, leb, ◌==◌, u32, sub32, not, ◌||◌,
}
use moamoa_caterpillar_firmw.Imu.Shared.{Sample, imu_ring_n, imu_shared_magic, update}
use moamoa_caterpillar_firmw.Imu.Sampler.{ProducerPc, between, store, advance, producer_check}
use moamoa_caterpillar_firmw.Imu.Pump.{ConsumerPc, asleep, testing, copying, pump_wake}
use moamoa_caterpillar_firmw.Imu.Spsc.{System, sample_found, producer_at, pump_wakes}

-- The sampler's copy of `head` is current, there is room for its record, and a record that is
-- stored already is the next one of the history.
abbrev pub ProducerFits : ProducerPc → System → Type 0
ProducerFits between t = Unit {0}
ProducerFits (store head s) t = (head ≡ u32 t.produced) × (t.produced < t.consumed + imu_ring_n)
ProducerFits (advance head) t =
    (head ≡ u32 t.produced)
    × (t.produced < t.consumed + imu_ring_n)
    × (t.sh.ring (t.produced % imu_ring_n) ≡ t.history t.produced)

-- The pump's copy of `tail` is current, its copy of `head` names records that are published, and
-- its chunk holds the records from `consumed` on.
abbrev pub ConsumerFits : ConsumerPc → System → Type 0
ConsumerFits asleep t = Unit {0}
ConsumerFits (testing head tail) t =
    (tail ≡ u32 t.consumed)
    × ((seen : ℕ) × (head ≡ u32 seen) × (t.consumed ≤ seen) × (seen ≤ t.produced))
ConsumerFits (copying head tail n chunk) t =
    (tail ≡ u32 t.consumed)
    × ((seen : ℕ) × (head ≡ u32 seen) × (t.consumed + n ≤ seen) × (seen ≤ t.produced))
    × (length chunk ≤ n)
    × (chunk ≡ tabulate t.history t.consumed (length chunk))

pub record Inv (t : System) : Type 0 where
  pub head_ok : t.sh.head ≡ u32 t.produced
  pub tail_ok : t.sh.tail ≡ u32 t.consumed
  pub ordered : t.consumed ≤ t.produced
  pub bounded : t.produced ≤ t.consumed + imu_ring_n
  pub kept : (k : ℕ) → t.consumed ≤ k → k < t.produced → t.sh.ring (k % imu_ring_n) ≡ t.history k
  pub sent : t.delivered ≡ tabulate t.history 0 t.consumed
  pub producer_fits : ProducerFits t.producer t
  pub consumer_fits : ConsumerFits t.consumer t

-- Different places of the window have different cells.
window-ne : (c p k : ℕ) → c ≤ k → k < p → p < c + imu_ring_n → k % imu_ring_n ≢ p % imu_ring_n
window-ne c p k h1 h2 h3 = omega arith

-- What the test for a full ring leaves alone, and the place where it leaves the sampler.
producer_check_lem :
    (t : System) (s : Sample)
    → Inv t
    → ((producer_check t.sh s).0.head ≡ t.sh.head)
      × ((producer_check t.sh s).0.tail ≡ t.sh.tail)
      × ((producer_check t.sh s).0.ring ≡ t.sh.ring)
      × ProducerFits (producer_check t.sh s).1 t
unfolding producer_check
producer_check_lem t s v = elim (Bool-cases (leb imu_ring_n (sub32 t.sh.head t.sh.tail))) [
  | inl full ↦ rw full (refl, refl, refl, tt)
  | inr room ↦
      rw room
        (refl, refl, refl, (v.head_ok, ground (arith, v.head_ok, v.tail_ok, v.ordered, v.bounded)))
]

pub ProducerFits-cong :
    (pc : ProducerPc) (t u : System)
    → u.produced ≡ t.produced
    → t.consumed ≤ u.consumed
    → u.sh.ring ≡ t.sh.ring
    → u.history ≡ t.history
    → ProducerFits pc t
    → ProducerFits pc u
ProducerFits-cong between t u p c r h f = tt
ProducerFits-cong (store head s) t u p c r h f = (f.0 ∙ ap u32 (sym p), omega (arith, f.1))
ProducerFits-cong (advance head) t u p c r h f =
    (f.0 ∙ ap u32 (sym p), omega (arith, f.1), rw (r, h, p) f.2)

pub ConsumerFits-cong :
    (pc : ConsumerPc) (t u : System)
    → t.produced ≤ u.produced
    → u.consumed ≡ t.consumed
    → ((k : ℕ) → k < t.produced → u.history k ≡ t.history k)
    → ConsumerFits pc t
    → ConsumerFits pc u
ConsumerFits-cong asleep t u p c h f = tt
ConsumerFits-cong (testing head tail) t u p c h f =
    (f.0 ∙ ap u32 (sym c), (f.1.0, f.1.1, omega (arith, f.1.2), omega (arith, f.1.3)))
ConsumerFits-cong (copying head tail n chunk) t u p c h f = (
  f.0 ∙ ap u32 (sym c),
  (f.1.0, f.1.1, omega (arith, f.1.2), omega (arith, f.1.3)),
  f.2,
  f.3
      ∙ tabulate-ext t.history u.history t.consumed u.consumed (length chunk) (λ j q.
        sym (h (t.consumed + j) (omega (arith, f.1.2, f.1.3, f.2)))
        ∙ ap (λ k. u.history (k + j)) (sym c)),
)

pub sample_found-Inv :
    (t : System) (s : Sample) → t.producer ≡ between → Inv t → Inv (sample_found s t)
unfolding sample_found
sample_found-Inv t s e v = record {
  head_ok = c.0 ∙ v.head_ok;
  tail_ok = c.1 ∙ v.tail_ok;
  ordered = v.ordered;
  bounded = v.bounded;
  kept = λ k lo hi. ap (λ r. r (k % imu_ring_n)) c.2 ∙ v.kept k lo hi;
  sent = v.sent;
  producer_fits = ProducerFits-cong (producer_check t.sh s).1 t _ refl (omega arith) c.2 refl c.3;
  consumer_fits = ConsumerFits-cong t.consumer t _ (omega arith) refl (λ k q. refl) v.consumer_fits;
}
  where
    c :
        ((producer_check t.sh s).0.head ≡ t.sh.head)
        × ((producer_check t.sh s).0.tail ≡ t.sh.tail)
        × ((producer_check t.sh s).0.ring ≡ t.sh.ring)
        × ProducerFits (producer_check t.sh s).1 t
    c = producer_check_lem t s v

pump_wake_lem : (t : System) → Inv t → ConsumerFits (pump_wake t.sh) t
unfolding pump_wake
pump_wake_lem t v = elim (Bool-cases (not (t.sh.magic == imu_shared_magic) || not t.sh.imu_ok)) [
  | inl off ↦ rw off tt
  | inr on ↦ rw on (v.tail_ok, (t.produced, v.head_ok, v.ordered, omega arith))
]

pub pump_wakes-Inv : (t : System) → Inv t → Inv (pump_wakes t)
unfolding pump_wakes
pump_wakes-Inv t v = record {
  head_ok = v.head_ok;
  tail_ok = v.tail_ok;
  ordered = v.ordered;
  bounded = v.bounded;
  kept = v.kept;
  sent = v.sent;
  producer_fits = ProducerFits-cong t.producer t _ refl (omega arith) refl refl v.producer_fits;
  consumer_fits =
      ConsumerFits-cong (pump_wake t.sh) t _ (omega arith) refl (λ k q. refl) (pump_wake_lem t v);
}

update_ne : (f : ℕ → Sample) (i j : ℕ) (s : Sample) → i ≢ j → update f i s j ≡ f j
unfolding update
update_ne f i j s h = ground arith

update_self : (f : ℕ → Sample) (i : ℕ) (s : Sample) → update f i s i ≡ s
unfolding update
update_self f i s = ground arith

lt_or_eq : (k p : ℕ) → k < p + 1 → (k < p) ⊎ (k ≡ p)
lt_or_eq k p h = omega arith

pub producer_at-Inv :
    (pc : ProducerPc) (t : System) → ProducerFits pc t → Inv t → Inv (producer_at pc t)
unfolding producer_at
producer_at-Inv between t f v = record {
  head_ok = v.head_ok;
  tail_ok = v.tail_ok;
  ordered = v.ordered;
  bounded = v.bounded;
  kept = v.kept;
  sent = v.sent;
  producer_fits = tt;
  consumer_fits = ConsumerFits-cong t.consumer t _ (omega arith) refl (λ k q. refl) v.consumer_fits;
}
producer_at-Inv (store head s) t f v = record {
  head_ok = v.head_ok;
  tail_ok = v.tail_ok;
  ordered = v.ordered;
  bounded = v.bounded;
  kept = λ k lo hi.
      update_ne t.sh.ring (head % imu_ring_n) (k % imu_ring_n) s (omega (arith, f.0, f.1))
      ∙ v.kept k lo hi
      ∙ sym (update_ne t.history t.produced k s (omega arith));
  sent =
      v.sent
      ∙ tabulate-ext t.history _ 0 0 t.consumed
          (λ j q. sym (update_ne t.history t.produced (0 + j) s (omega (arith, v.ordered))));
  producer_fits = (
    f.0,
    f.1,
    ap (λ i. update t.sh.ring i s (t.produced % imu_ring_n)) (omega (arith, f.0))
        ∙ update_self t.sh.ring (t.produced % imu_ring_n) s
        ∙ sym (update_self t.history t.produced s),
  );
  consumer_fits =
      ConsumerFits-cong t.consumer t _ (omega arith) refl
        (λ k q. update_ne t.history t.produced k s (omega arith)) v.consumer_fits;
}
producer_at-Inv (advance head) t f v = record {
  head_ok = omega (arith, f.0);
  tail_ok = v.tail_ok;
  ordered = omega (arith, v.ordered);
  bounded = omega (arith, f.1);
  kept = λ k lo hi. elim (lt_or_eq k t.produced hi) [
    | inl old ↦ v.kept k lo old
    | inr new ↦ subst (λ i. t.sh.ring (i % imu_ring_n) ≡ t.history i) (sym new) f.2
  ];
  sent = v.sent;
  producer_fits = tt;
  consumer_fits = ConsumerFits-cong t.consumer t _ (omega arith) refl (λ k q. refl) v.consumer_fits;
}
