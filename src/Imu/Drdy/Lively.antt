-- ===== src/Imu/Drdy/Lively.antt =====
-- As long as reads succeed the sampler of flpr/src never waits for an edge that has passed.
use moamoa_caterpillar_firmw.Base.{
  ℕ, zero, suc, ◌≡◌, refl, sym, subst, Bool, true, false, ◌==◌, ◌<◌, arith,
}
use moamoa_caterpillar_firmw.Errno.{Status, ok}
use moamoa_caterpillar_firmw.Imu.Drdy.{
  Back, to_wait, to_read, SamplerPc, waiting, reading, scratch, resetting, Drdy, drdy_isr, new_data,
  wait_data, read_output, burst_read, scratch_read, sem_reset, waited, Step, sample, wait, read,
  reconfigure, scratched, reset, Reach, here, next, Arrives,
}

-- The line is high and the sampler will notice: it has the semaphore, or it is on its way to a read.
abbrev Noticed : Bool → ℕ → SamplerPc → Type 0
Noticed line sem waiting = line ≡ true → 0 < sem
Noticed line sem reading = Unit {0}
Noticed line sem (scratch back) = Unit {0}
Noticed line sem (resetting back) = line ≡ false

abbrev pub IsLively : Drdy → Type 0
IsLively s = Noticed s.line s.drdy_sem s.pc

abbrev pub Succeeds : Status → Type 0
Succeeds st = st ≡ ok

waited-IsLively :
    (sem n : ℕ) (line : Bool)
    → Noticed line sem waiting
    → IsLively (waited (record { line = line; drdy_sem = sem; pc = waiting; delivered = n }))
unfolding waited wait_data
waited-IsLively zero n line h = h
waited-IsLively (suc sem) n line h =
    let given : (suc sem == 0) ≡ false = ground arith in rw (given, waited) tt

module _ (sem n : ℕ) where
  new_data-IsLively :
      (line : Bool) (pc : SamplerPc)
      → Arrives Succeeds ⊥ (Unit {0}) pc
      → Noticed line sem pc
      → IsLively (new_data (record { line = line; drdy_sem = sem; pc = pc; delivered = n }))
  unfolding new_data drdy_isr
  new_data-IsLively true pc a h = h
  new_data-IsLively false waiting a h = λ e. omega arith
  new_data-IsLively false reading a h = tt
  new_data-IsLively false (scratch back) a h = tt
  new_data-IsLively false (resetting back) a h = absurd a

  reset-IsLively :
      (line : Bool) (back : Back)
      → line ≡ false
      → IsLively (
          sem_reset back
            (record { line = line; drdy_sem = sem; pc = resetting back; delivered = n }))
  unfolding sem_reset
  reset-IsLively line to_wait e = λ high. absurd (cc)
  reset-IsLively line to_read e = tt

-- A state, with where it stands given apart.
at : Drdy → SamplerPc → Drdy
at s pc = record s { pc = pc }

notices_at : (s : Drdy) (pc : SamplerPc) → s.pc ≡ pc → IsLively s → Noticed s.line s.drdy_sem pc
notices_at s pc e h = subst (Noticed s.line s.drdy_sem) e h

wait-IsLively : (s : Drdy) → s.pc ≡ waiting → IsLively s → IsLively (waited s)
wait-IsLively s e h =
    subst (λ pc. IsLively (waited (record s { pc = pc }))) (sym e)
      (waited-IsLively s.drdy_sem s.delivered s.line (notices_at s waiting e h))

read-IsLively : (s : Drdy) (st : Status) → st ≡ ok → IsLively (burst_read st s)
unfolding burst_read read_output
read-IsLively s st e = rw e (λ high. absurd (cc))

scratched-IsLively :
    (s : Drdy) (st : Status) (back : Back) → st ≡ ok → IsLively (scratch_read st back s)
unfolding scratch_read read_output
scratched-IsLively s st back e = rw e refl

begin-IsLively : (s : Drdy) (back : Back) → IsLively (record s { pc = scratch back })
begin-IsLively s back = tt

Step-IsLively : {s t : Drdy} → Step Succeeds ⊥ (Unit {0}) s t → IsLively s → IsLively t
Step-IsLively {s} (sample a) h = new_data-IsLively s.drdy_sem s.delivered s.line s.pc a h
Step-IsLively {s} (wait e) h = wait-IsLively s e h
Step-IsLively {s} (read st good e) h = read-IsLively s st good
Step-IsLively {s} (reconfigure back u e) h = begin-IsLively s back
Step-IsLively {s} (scratched st back good e) h = scratched-IsLively s st back good
Step-IsLively {s} (reset back e) h =
    subst (λ pc. IsLively (sem_reset back (record s { pc = pc }))) (sym e)
      (reset-IsLively s.drdy_sem s.delivered s.line back (notices_at s (resetting back) e h))

-- As long as each read of the sensor succeeds, and no sample comes between the scratch read and the
-- reset of the semaphore: whenever the sampler waits while the data-ready line is high, the semaphore
-- is given, so that it reads the sample and makes room for the next edge.
pub Reach-lively :
    {s t : Drdy}
    → IsLively s
    → Reach Succeeds ⊥ (Unit {0}) s t
    → t.pc ≡ waiting
    → t.line ≡ true
    → 0 < t.drdy_sem
Reach-lively {s} {t} v r e high = notices_at t waiting e (reached v r) high
  where
    reached : {a b : Drdy} → IsLively a → Reach Succeeds ⊥ (Unit {0}) a b → IsLively b
    reached v here = v
    reached v (next r st) = Step-IsLively st (reached v r)
