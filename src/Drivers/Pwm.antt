-- ===== src/Drivers/Pwm.antt =====
-- src/drivers/driver_pwm.c. `pwm_set` is Zephyr's: its result for a channel, period and pulse is a
-- parameter.
use moamoa_caterpillar_firmw.Base.{
  ℕ, ◌*◌, ◌/◌, Bool, ◌||◌, List, [], ◌∷◌, if◌then◌else◌, ltb, ◌==◌, u16,
}
use moamoa_caterpillar_firmw.Errno.{Status, ok, err, einval, enodev}

abbrev pub freq_min_hz : ℕ
freq_min_hz = 4

abbrev pub freq_max_hz : ℕ
freq_max_hz = 1000

-- The statics `period_ns` and `duty_pct`.
pub record Pwm : Type 0 where
  pub period_ns : ℕ
  pub duty0 : ℕ
  pub duty1 : ℕ

-- A call of `pwm_set`: channel, period and pulse.
pub record Output : Type 0 where
  pub channel : ℕ
  pub period : ℕ
  pub pulse : ℕ

-- The product is computed in 64 bits, where it fits.
unfoldable pub output_of : ℕ → ℕ → ℕ → Output
output_of channel period duty = record {
  channel = channel;
  period = period;
  pulse = period * duty / 100;
}

unfoldable pub drv_pwm_get_frequency : Pwm → ℕ
drv_pwm_get_frequency p = u16 (1_000_000_000 / p.period_ns)

unfoldable pub drv_pwm_get_duty : Pwm → ℕ → ℕ
drv_pwm_get_duty p channel =
    if ltb 1 channel then 0 else (if channel == 0 then p.duty0 else p.duty1)

module _ (pwm_set : Output → Status) where
  -- `pwm_apply`: the result and the calls made.
  unfoldable pub pwm_apply : Pwm → Status × List Output
  unfolding output_of
  pwm_apply p =
      let o0 = output_of 0 p.period_ns p.duty0 in
      let o1 = output_of 1 p.period_ns p.duty1 in
      elim (pwm_set o0) [ err e ↦ (err e, o0 ∷ []) | ok ↦ (pwm_set o1, o0 ∷ o1 ∷ []) ]

  unfoldable pub drv_pwm_init : Bool → Pwm → Status × List Output
  unfolding pwm_apply
  drv_pwm_init is_ready p = if is_ready then pwm_apply p else (err enodev, [])

  unfoldable pub drv_pwm_set_duty : ℕ → ℕ → Pwm → Status × List Output × Pwm
  unfolding pwm_apply
  drv_pwm_set_duty channel percent p =
      if ltb 1 channel || ltb 100 percent
      then (err einval, [], p)
      else (let p1 =
            if channel == 0 then record p { duty0 = percent } else record p { duty1 = percent } in
          let r = pwm_apply p1 in (r.0, r.1, p1))

  unfoldable pub drv_pwm_set_frequency : ℕ → Pwm → Status × List Output × Pwm
  unfolding pwm_apply
  drv_pwm_set_frequency hz p =
      if ltb hz freq_min_hz || ltb freq_max_hz hz
      then (err einval, [], p)
      else (let p1 = record p { period_ns = 1_000_000_000 / hz } in
          let r = pwm_apply p1 in (r.0, r.1, p1))
