-- ===== src/Imu/Drdy/Stalls.antt =====
-- Two ways in which the sampler of flpr/src stands still until it is configured again.
use moamoa_caterpillar_firmw.Base.{ℕ, ◌≡◌, true, arith}
use moamoa_caterpillar_firmw.Errno.{Errno, Status, err}
use moamoa_caterpillar_firmw.Imu.Drdy.{
  waiting, Drdy, new_data, wait_data, read_output, burst_read, waited, Step, sample, wait, read,
  reconfigure, scratched, reset, Reach, here, next,
}

abbrev pub Anything : Status → Type 0
Anything st = Unit {0}

-- The sampler waits for an edge, and there is none to come: the line is high already.
pub record Stalled (n : ℕ) (s : Drdy) : Type 0 where
  pub line : s.line ≡ true
  pub drdy_sem : s.drdy_sem ≡ 0
  pub pc : s.pc ≡ waiting
  pub delivered : s.delivered ≡ n

sample-Stalled : (n : ℕ) (s : Drdy) → Stalled n s → Stalled n (new_data s)
unfolding new_data
sample-Stalled n s v = ground (arith, v)

wait-Stalled : (n : ℕ) (s : Drdy) → Stalled n s → Stalled n (waited s)
unfolding waited wait_data
wait-Stalled n s v = ground (arith, v)

module _ (n : ℕ) where
  Step-Stalled : {s t : Drdy} → Step Anything (Unit {0}) ⊥ s t → Stalled n s → Stalled n t
  Step-Stalled {s} (sample a) v = sample-Stalled n s v
  Step-Stalled {s} (wait e) v = wait-Stalled n s v
  Step-Stalled {s} (read st m e) v = absurd (let w = v.pc in cc)
  Step-Stalled {s} (reconfigure back u e) v = absurd u
  Step-Stalled {s} (scratched st back m e) v = absurd (let w = v.pc in cc)
  Step-Stalled {s} (reset back e) v = absurd (let w = v.pc in cc)

  Reach-Stalled : {s t : Drdy} → Reach Anything (Unit {0}) ⊥ s t → Stalled n s → Stalled n t
  Reach-Stalled here v = v
  Reach-Stalled (next r st) v = Step-Stalled st (Reach-Stalled r v)

failed-Stalled :
    (e : Errno) (s : Drdy)
    → s.line ≡ true
    → s.drdy_sem ≡ 1
    → Stalled s.delivered (burst_read (err e) (waited s))
unfolding burst_read read_output waited wait_data
failed-Stalled e s line sem = ground (arith, line, sem)

-- A read that fails once stalls the sampler: the sample stays in the sensor and the line high, so no
-- edge comes, and no sample is delivered any more, whatever happens and however later reads would
-- end, until a new configuration comes.
pub failed_read-stalls :
    (e : Errno) (s t : Drdy)
    → s.line ≡ true
    → s.drdy_sem ≡ 1
    → Reach Anything (Unit {0}) ⊥ (burst_read (err e) (waited s)) t
    → Stalled s.delivered t
failed_read-stalls e s t line sem r = Reach-Stalled s.delivered r (failed-Stalled e s line sem)
