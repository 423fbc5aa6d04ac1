-- ===== src/Imu/Spsc.antt =====
-- The two cores over the shared ring: the sampler of flpr/src/main.c and the pump of
-- src/imu/imu_pump.c, interleaved access by access.
pub mod Invariant
pub mod Safety
pub mod Accounts
use moamoa_caterpillar_firmw.Base.{
  ℕ, ◌+◌, ◌≤◌, ◌<◌, ◌≡◌, List, [], ◌++◌, Option, none, some, tabulate, length, arith, u32,
}
use moamoa_caterpillar_firmw.Imu.Shared.{Sample, Shared, update}
use moamoa_caterpillar_firmw.Imu.Sampler.{
  ProducerPc, between, store, advance, producer_check, producer_step,
}
use moamoa_caterpillar_firmw.Imu.Pump.{ConsumerPc, asleep, testing, copying, pump_wake, pump_step}

-- The shared block, where each side stands, and what an observer has seen: the samples found, the
-- records published so far, in order, how many of them were taken, and what the pump handed on.
pub record System : Type 0 where
  pub sh : Shared
  pub producer : ProducerPc
  pub consumer : ConsumerPc
  pub found : ℕ
  pub produced : ℕ
  pub history : ℕ → Sample
  pub consumed : ℕ
  pub delivered : List Sample

abbrev pub handed : Option (List Sample) → List Sample
handed none = []
handed (some chunk) = chunk

-- The observer's account of a producer that advances `head`.
abbrev pub record_publication : ProducerPc → System → System
record_publication between t = t
record_publication (store head s) t = record t { history = update t.history t.produced s }
record_publication (advance head) t = record t { produced = t.produced + 1 }

-- The accesses: the sampler's test for a full ring, its stores, the pump's reading of the
-- counters, and the pump's copies and its store to `tail`.
unfoldable pub sample_found : Sample → System → System
unfolding producer_check
sample_found s t =
    let (sh', pc) = producer_check t.sh s in
    record t { sh = sh'; producer = pc; found = t.found + 1 }

unfoldable pub producer_at : ProducerPc → System → System
unfolding producer_step
producer_at pc t =
    let (sh', pc') = producer_step t.sh pc in
    record (record_publication pc t) { sh = sh'; producer = pc' }

unfoldable pub producer_moves : System → System
unfolding producer_at
producer_moves t = producer_at t.producer t

unfoldable pub pump_wakes : System → System
unfolding pump_wake
pump_wakes t = record t { consumer = pump_wake t.sh }

unfoldable pub pump_at : ConsumerPc → System → System
unfolding pump_step
pump_at pc t =
    let (sh', pc', chunk) = pump_step t.sh pc in
    record t {
      sh = sh';
      consumer = pc';
      consumed = t.consumed + length (handed chunk);
      delivered = t.delivered ++ handed chunk;
    }

unfoldable pub pump_moves : System → System
unfolding pump_at
pump_moves t = pump_at t.consumer t

-- One access of either core. Between two records the sampler may find a new one, for any sample;
-- a sleeping pump may wake at any time.
pub data Step (t : System) : System → Type 0 where
  sample : (s : Sample) → t.producer ≡ between → Step t (sample_found s t)
  produce : Step t (producer_moves t)
  wake : t.consumer ≡ asleep → Step t (pump_wakes t)
  drain : Step t (pump_moves t)

pub data Reach (t : System) : System → Type 0 where
  here : Reach t t
  next : {u v : System} → Reach t u → Step u v → Reach t v
