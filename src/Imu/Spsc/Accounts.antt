-- ===== src/Imu/Spsc/Accounts.antt =====
-- The counts of samples at the shared ring.
use moamoa_caterpillar_firmw.Base.{ℕ, ◌+◌, ◌≡◌, refl, arith, u32}
use moamoa_caterpillar_firmw.Imu.Shared.{Sample}
use moamoa_caterpillar_firmw.Imu.Sampler.{ProducerPc, between, store, advance}
use moamoa_caterpillar_firmw.Imu.Pump.{ConsumerPc, asleep, testing, copying}
use moamoa_caterpillar_firmw.Imu.Spsc.{
  System, sample_found, producer_at, producer_moves, pump_wakes, pump_at, pump_moves, Step, sample,
  produce, wake, drain, Reach, here, next,
}

-- The record on its way into the ring.
abbrev pub in_flight : ProducerPc → ℕ
in_flight between = 0
in_flight (store head s) = 1
in_flight (advance head) = 1

-- The samples found are those published, those counted as overruns, and the one on its way, as far
-- as the 32-bit counter `overrun` can tell.
abbrev pub Accounted : System → Type 0
Accounted t = u32 t.found ≡ u32 (t.produced + t.sh.overrun + in_flight t.producer)

sample_found-Accounted :
    (t : System) (s : Sample) → t.producer ≡ between → Accounted t → Accounted (sample_found s t)
unfolding sample_found
sample_found-Accounted t s e a = ground arith

producer_at-Accounted :
    (pc : ProducerPc) (t : System) → t.producer ≡ pc → Accounted t → Accounted (producer_at pc t)
unfolding producer_at
producer_at-Accounted between t e a = ground arith
producer_at-Accounted (store head s) t e a = ground arith
producer_at-Accounted (advance head) t e a = ground arith

pump_at-Accounted : (pc : ConsumerPc) (t : System) → Accounted t → Accounted (pump_at pc t)
unfolding pump_at
pump_at-Accounted asleep t a = a
pump_at-Accounted (testing head tail) t a = ground arith
pump_at-Accounted (copying head tail n chunk) t a = ground arith

Step-Accounted : {t u : System} → Step t u → Accounted t → Accounted u
unfolding producer_moves pump_moves pump_wakes
Step-Accounted {t} (sample s e) a = sample_found-Accounted t s e a
Step-Accounted {t} produce a = producer_at-Accounted t.producer t refl a
Step-Accounted {t} (wake e) a = a
Step-Accounted {t} drain a = pump_at-Accounted t.consumer t a

-- After any interleaving of the two cores' accesses, each sample that the sampler found was
-- published, or counted in `overrun`, or is the one on its way: the counts agree modulo 2 ^ 32.
pub Reach-Accounted : {t u : System} → Accounted t → Reach t u → Accounted u
Reach-Accounted a here = a
Reach-Accounted a (next r s) = Step-Accounted s (Reach-Accounted a r)
