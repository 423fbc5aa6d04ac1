-- ===== src/Imu/Drdy.antt =====
-- flpr/src/driver_asm330lhh.c and main.c: the sensor's data-ready line, the semaphore behind its
-- interrupt, and the sampler that waits for it. The sensor is hardware: its line is latched, it rises
-- with a new sample and falls when the sample is read, and only a rising edge interrupts. How each
-- SPI read ends is a parameter of the step.
use moamoa_caterpillar_firmw.Base.{
  ℕ, zero, suc, ◌+◌, ◌-◌, ◌≡◌, ◌≢◌, Bool, true, false, if◌then◌else◌, ◌==◌, min,
}
use moamoa_caterpillar_firmw.Errno.{Status, ok, err, eagain}
mod Lively
mod Stalls
mod Tests

-- Where the sampler stands: in the wait; behind it, before the burst read; or at the end of
-- `drv_asm330lhh_configure`, before its scratch read or before its reset of the semaphore, and from
-- there back to the wait or to the read.
pub data Back : Type 0 where
  to_wait to_read : Back

pub data SamplerPc : Type 0 where
  waiting : SamplerPc
  reading : SamplerPc
  scratch : Back → SamplerPc
  resetting : Back → SamplerPc

abbrev pub back_to : Back → SamplerPc
back_to to_wait = waiting
back_to to_read = reading

-- INT1, the count of `drdy_sem`, and the samples that the burst read delivered.
pub record Drdy : Type 0 where
  pub line : Bool
  pub drdy_sem : ℕ
  pub pc : SamplerPc
  pub delivered : ℕ

-- `drdy_isr`; the semaphore's limit is 1.
unfoldable pub drdy_isr : Drdy → Drdy
drdy_isr s = record s { drdy_sem = min (s.drdy_sem + 1) 1 }

-- A new sample: an edge, unless the line is high already.
unfoldable pub new_data : Drdy → Drdy
unfolding drdy_isr
new_data s = if s.line then s else drdy_isr (record s { line = true })

-- `drv_asm330lhh_wait_data`, when the wait ends: with the semaphore, or at the timeout without it.
unfoldable pub wait_data : Drdy → Status × Drdy
wait_data s =
    if s.drdy_sem == 0 then (err eagain, s) else (ok, record s { drdy_sem = s.drdy_sem - 1 })

-- The effect of a read of the output registers on the line.
unfoldable pub read_output : Status → Drdy → Drdy
read_output ok s = record s { line = false }
read_output (err e) s = s

-- `drv_asm330lhh_read` in the loop of `main`, which goes on to the next wait in either case.
unfoldable pub burst_read : Status → Drdy → Drdy
unfolding read_output
burst_read ok s = record (read_output ok s) { pc = waiting; delivered = s.delivered + 1 }
burst_read (err e) s = record (read_output (err e) s) { pc = waiting }

-- The end of `drv_asm330lhh_configure`: the scratch read, whose result is ignored, and `k_sem_reset`.
unfoldable pub scratch_read : Status → Back → Drdy → Drdy
unfolding read_output
scratch_read st back s = record (read_output st s) { pc = resetting back }

unfoldable pub sem_reset : Back → Drdy → Drdy
sem_reset back s = record s { drdy_sem = 0; pc = back_to back }

-- The next state of the loop behind a wait.
unfoldable pub waited : Drdy → Drdy
unfolding wait_data
waited s = elim (wait_data s).0 [ ok ↦ record (wait_data s).1 { pc = reading } | err e ↦ s ]

-- `may` says how reads may end, `Late` whether a sample may come between the scratch read and the
-- reset, and `Reconfigured` whether the application may change the configuration.
module _ (may : Status → Type 0) (Late Reconfigured : Type 0) where
  abbrev pub Arrives : SamplerPc → Type 0
  Arrives (resetting back) = Late
  Arrives _ = Unit {0}

  pub data Step (s : Drdy) : Drdy → Type 0 where
    sample : Arrives s.pc → Step s (new_data s)
    wait : s.pc ≡ waiting → Step s (waited s)
    read : (st : Status) → may st → s.pc ≡ reading → Step s (burst_read st s)
    -- `apply_config` after a timeout, or before the read of a sample
    reconfigure :
        (back : Back) → Reconfigured → s.pc ≡ back_to back → Step s (record s { pc = scratch back })
    scratched :
        (st : Status) (back : Back) → may st → s.pc ≡ scratch back → Step s (scratch_read st back s)
    reset : (back : Back) → s.pc ≡ resetting back → Step s (sem_reset back s)

  pub data Reach (s : Drdy) : Drdy → Type 0 where
    here : Reach s s
    next : {t u : Drdy} → Reach s t → Step t u → Reach s u
