-- ===== src/Drivers/Waveform.antt =====
-- The waveform of src/drivers/driver_pwm.c.
use native.Mathlib.Nat.{
  mul-div-le, lt-mul-div-succ, div-eq_of_lt-le, le-div_iff_mul-le, mul-le-mul_left,
  mul-le-mul_right,
}
use moamoa_caterpillar_firmw.Base.{
  ℕ, ◌*◌, ◌/◌, ◌≤◌, ◌≡◌, ◌⊎◌, refl, inl, inr, ◌||◌, Bool-cases, List, [], ◌∷◌, if◌then◌else◌, ltb,
  ◌==◌, arith,
}
use moamoa_caterpillar_firmw.Errno.{Status, err, einval, Status-cases}
use moamoa_caterpillar_firmw.Drivers.Pwm.{
  Pwm, Output, output_of, pwm_apply, drv_pwm_get_frequency, drv_pwm_set_duty, drv_pwm_set_frequency,
  freq_min_hz, freq_max_hz,
}

pub record IsValid (p : Pwm) : Type 0 where
  pub period_low : 1_000_000 ≤ p.period_ns
  pub period_high : p.period_ns ≤ 250_000_000
  pub duty0_high : p.duty0 ≤ 100
  pub duty1_high : p.duty1 ≤ 100

-- No pulse is longer than its period, and the period is that of the state.
abbrev pub Sound : ℕ → List Output → Type 0
Sound period [] = Unit {0}
Sound period (o ∷ os) = (o.period ≡ period) × (o.pulse ≤ o.period) × Sound period os

pulse_fits : (period duty : ℕ) → duty ≤ 100 → period * duty / 100 ≤ period
pulse_fits period duty h = omega (arith, mul-le-mul_left period h)

pwm_apply-Sound :
    (pwm_set : Output → Status) (p : Pwm) → IsValid p → Sound p.period_ns (pwm_apply pwm_set p).1
unfolding pwm_apply output_of
pwm_apply-Sound pwm_set p v = elim (Status-cases (pwm_set (output_of 0 p.period_ns p.duty0))) [
  | inl sent ↦
      rw (sent, pwm_apply)
        (
          refl,
          pulse_fits p.period_ns p.duty0 v.duty0_high,
          (refl, pulse_fits p.period_ns p.duty1 v.duty1_high, tt),
        )
  | inr (e, failed) ↦ rw (failed, pwm_apply) (refl, pulse_fits p.period_ns p.duty0 v.duty0_high, tt)
]

-- The period of a valid frequency, and back.
period_bounds :
    (hz : ℕ)
    → 4 ≤ hz
    → hz ≤ 1000
    → (1_000_000 ≤ 1_000_000_000 / hz) × (1_000_000_000 / hz ≤ 250_000_000)
period_bounds hz lo hi = (
  (le-div_iff_mul-le {k = hz} {x = 1_000_000} {y = 1_000_000_000} (omega arith)).1 (omega arith),
  omega (arith, mul-div-le 1_000_000_000 hz, mul-le-mul_right (1_000_000_000 / hz) lo),
)

pub frequency_back : (hz : ℕ) → 4 ≤ hz → hz ≤ 1000 → 1_000_000_000 / (1_000_000_000 / hz) ≡ hz
frequency_back hz lo hi =
    div-eq_of_lt-le {k = hz} (1_000_000_000 / hz) {m = 1_000_000_000} (mul-div-le 1_000_000_000 hz)
      (omega (
        arith,
        lt-mul-div-succ 1_000_000_000 {b = hz} (omega arith),
        (period_bounds hz lo hi).0,
        hi,
      ))

-- What is asked of `pwm_set` after a change of the state.
applied :
    (pwm_set : Output → Status) (p1 : Pwm)
    → IsValid p1
    → IsValid p1 × Sound p1.period_ns (pwm_apply pwm_set p1).1
applied pwm_set p1 v = (v, pwm_apply-Sound pwm_set p1 v)

pub set_frequency-IsValid :
    (hz : ℕ) (p : Pwm)
    → 4 ≤ hz
    → hz ≤ 1000
    → IsValid p
    → IsValid (record p { period_ns = 1_000_000_000 / hz })
set_frequency-IsValid hz p lo hi v = record {
  period_low = (period_bounds hz lo hi).0;
  period_high = (period_bounds hz lo hi).1;
  duty0_high = v.duty0_high;
  duty1_high = v.duty1_high;
}

-- A frequency in 4..1000 Hz is read back exactly, whether or not the hardware took it; another one
-- is refused and changes nothing; and in either case the state stays valid and no pulse that was
-- asked for is longer than its period.
pub drv_pwm_set_frequency-read_back :
    (pwm_set : Output → Status) (hz : ℕ) (p : Pwm)
    → IsValid p
    → let (st, outs, p') = drv_pwm_set_frequency pwm_set hz p in
      (IsValid p' × Sound p'.period_ns outs)
      × (((4 ≤ hz) × (hz ≤ 1000) × (drv_pwm_get_frequency p' ≡ hz))
          ⊎ ((st ≡ err einval) × (p' ≡ p) × (outs ≡ [])))
unfolding drv_pwm_set_frequency drv_pwm_get_frequency
drv_pwm_set_frequency-read_back pwm_set hz p v =
    elim (Bool-cases (ltb hz freq_min_hz || ltb freq_max_hz hz)) [
      | inl refused ↦ rw refused ((v, tt), inr (refl, refl, refl))
      | inr taken ↦
          let lo : 4 ≤ hz = ground (arith, taken) in
          let hi : hz ≤ 1000 = ground (arith, taken) in
          rw taken (
            applied pwm_set _ (set_frequency-IsValid hz p lo hi v),
            inl (lo, hi, omega (arith, frequency_back hz lo hi, hi)),
          )
    ]

set_duty-IsValid :
    (channel percent : ℕ) (p : Pwm)
    → percent ≤ 100
    → IsValid p
    → let p1 =
        if channel == 0 then record p { duty0 = percent } else record p { duty1 = percent } in
      IsValid p1 × (p1.period_ns ≡ p.period_ns)
set_duty-IsValid channel percent p h v = elim (Bool-cases (channel == 0)) [
  | inl first ↦ rw first (
    record {
      period_low = v.period_low;
      period_high = v.period_high;
      duty0_high = h;
      duty1_high = v.duty1_high;
    },
    refl,
  )
  | inr second ↦ rw second (
    record {
      period_low = v.period_low;
      period_high = v.period_high;
      duty0_high = v.duty0_high;
      duty1_high = h;
    },
    refl,
  )
]

-- After any duty cycle asked for on any channel, valid or not, the state is valid, the period is as
-- it was, and no pulse that was asked for is longer than it.
pub drv_pwm_set_duty-IsValid :
    (pwm_set : Output → Status) (channel percent : ℕ) (p : Pwm)
    → IsValid p
    → let (st, outs, p') = drv_pwm_set_duty pwm_set channel percent p in
      IsValid p' × (p'.period_ns ≡ p.period_ns) × Sound p'.period_ns outs
unfolding drv_pwm_set_duty
drv_pwm_set_duty-IsValid pwm_set channel percent p v =
    elim (Bool-cases (ltb 1 channel || ltb 100 percent)) [
      | inl refused ↦ rw refused (v, refl, tt)
      | inr taken ↦
          let q = set_duty-IsValid channel percent p (ground (arith, taken)) v in
          rw taken (q.0, q.1, pwm_apply-Sound pwm_set _ q.0)
    ]
