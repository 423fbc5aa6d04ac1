-- ===== src/Drivers/Heartbeat.antt =====
-- The heartbeat of src/drivers/driver_led.c.
use moamoa_caterpillar_firmw.Base.{
  ℕ, zero, suc, ◌+◌, ◌<◌, ◌≡◌, refl, ap, sym, subst, ◌∙◌, some, length, get_or, arith,
}
use moamoa_caterpillar_firmw.Drivers.Led.{
  Led, boot, run, steps_of, dark, show_step, next_period, blink_timer_fn, drv_led_blink_start,
}

unfoldable pub ticks : ℕ → Led → Led
ticks zero l = l
ticks (suc n) l = ticks n (blink_timer_fn l)

-- The heartbeat runs: the running pattern is shown, and no period of the other one is left.
pub record Beats (l : Led) : Type 0 where
  pub running : l.pattern ≡ run
  pub step_in : l.step_idx < 2
  pub none_left : l.boot_periods_left ≡ 0

-- The pin is at the level of the current step, and the timer is set for its time.
abbrev pub Shown : Led → Type 0
Shown l =
    let s = get_or (steps_of l.pattern) l.step_idx dark in (l.pin ≡ s.on) × (l.timer ≡ some s.ms)

blink_timer_fn-Shown : (l : Led) → Shown (blink_timer_fn l)
unfolding blink_timer_fn show_step
blink_timer_fn-Shown l = (refl, refl)

blink_timer_fn-Beats : (l : Led) → Beats l → Beats (blink_timer_fn l)
unfolding blink_timer_fn show_step next_period
blink_timer_fn-Beats l b =
    let size : length (steps_of l.pattern) ≡ 2 = ap (λ p. length (steps_of p)) b.running in
    record {
      running = ground (arith, b.running, b.none_left, size);
      step_in = ground (arith, b.running, b.none_left, b.step_in, size);
      none_left = ground (arith, b.running, b.none_left, size);
    }

ticks-Beats : (n : ℕ) (l : Led) → Beats l → Beats (ticks n l)
unfolding ticks
ticks-Beats zero l b = b
ticks-Beats (suc n) l b = ticks-Beats n (blink_timer_fn l) (blink_timer_fn-Beats l b)

ticks-add : (m n : ℕ) (l : Led) → ticks (m + n) l ≡ ticks n (ticks m l)
unfolding ticks
ticks-add zero n l = ap (λ k. ticks k l) {x = 0 + n} {y = n} (omega arith)
ticks-add (suc m) n l =
    ap (λ k. ticks k l) {x = suc m + n} {y = suc (m + n)} (omega arith)
    ∙ ticks-add m n (blink_timer_fn l)

boot_marker : (l : Led) → Beats (ticks 18 (drv_led_blink_start l))
unfolding ticks blink_timer_fn show_step next_period drv_led_blink_start
boot_marker l = record { running = refl; step_in = omega arith; none_left = refl }

-- From the start of the blinking, whatever was shown before, the marker of a reset is shown for 17
-- ticks of the timer and the heartbeat from the 18th on for good, three periods of six steps later;
-- and after each tick the pin and the timer are those of the current step.
pub blink-settles :
    (n : ℕ) (l : Led)
    → ((ticks 17 (drv_led_blink_start l)).pattern ≡ boot)
      × Beats (ticks (18 + n) (drv_led_blink_start l))
      × Shown (blink_timer_fn (ticks n (drv_led_blink_start l)))
unfolding ticks blink_timer_fn show_step next_period drv_led_blink_start
blink-settles n l = (
  refl,
  subst Beats (sym (ticks-add 18 n (drv_led_blink_start l)))
      (ticks-Beats n (ticks 18 (drv_led_blink_start l)) (boot_marker l)),
  (refl, refl),
)
