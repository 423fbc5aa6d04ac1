-- ===== src/Drivers/Led.antt =====
-- src/drivers/driver_led.c: the blink patterns and the timer's handler.
use moamoa_caterpillar_firmw.Base.{
  ℕ, ◌+◌, ◌-◌, Bool, true, false, not, List, [], ◌∷◌, Option, none, some, if◌then◌else◌, ltb, leb,
  ◌==◌, length, get_or,
}
use moamoa_caterpillar_firmw.Errno.{Status, ok, err, enodev}

-- `struct blink_step`
pub record BlinkStep : Type 0 where
  pub on : Bool
  pub ms : ℕ

abbrev pub boot_pattern : List BlinkStep
boot_pattern =
    record { on = true; ms = 3 }
    ∷ record { on = false; ms = 100 }
    ∷ record { on = true; ms = 3 }
    ∷ record { on = false; ms = 100 }
    ∷ record { on = true; ms = 3 }
    ∷ record { on = false; ms = 791 }
    ∷ []

abbrev pub run_pattern : List BlinkStep
run_pattern = record { on = true; ms = 3 } ∷ record { on = false; ms = 997 } ∷ []

abbrev pub dark : BlinkStep
dark = record { on = false; ms = 0 }

-- The pointer `pattern` is one of two.
pub data Pattern : Type 0 where
  boot run : Pattern

abbrev pub steps_of : Pattern → List BlinkStep
steps_of boot = boot_pattern
steps_of run = run_pattern

-- The statics; the level of the pin; and the time for which the timer is set, if it runs.
pub record Led : Type 0 where
  pub pattern : Pattern
  pub step_idx : ℕ
  pub boot_periods_left : ℕ
  pub enabled : Bool
  pub pin : Bool
  pub timer : Option ℕ

-- The pin and the timer for the step that is current.
unfoldable pub show_step : Led → Led
show_step l =
    let s = get_or (steps_of l.pattern) l.step_idx dark in
    record l { pin = s.on; timer = some s.ms }

-- `boot_periods_left > 0 && --boot_periods_left == 0`
unfoldable pub next_period : Led → Led
next_period l =
    if ltb 0 l.boot_periods_left
    then record l {
      step_idx = 0;
      boot_periods_left = l.boot_periods_left - 1;
      pattern = if l.boot_periods_left - 1 == 0 then run else l.pattern;
    }
    else record l { step_idx = 0 }

unfoldable pub blink_timer_fn : Led → Led
unfolding show_step next_period
blink_timer_fn l = show_step (
    if leb (length (steps_of l.pattern)) (l.step_idx + 1)
    then next_period l
    else record l { step_idx = l.step_idx + 1 })

unfoldable pub drv_led_init : Bool → Status → Led → Status × Led
drv_led_init is_ready configured l =
    if not is_ready
    then (err enodev, l)
    else elim configured [ err e ↦ (err e, l) | ok ↦ (ok, record l { pin = true }) ]

unfoldable pub drv_led_blink_start : Led → Led
unfolding show_step
drv_led_blink_start l = show_step (record l { pattern = boot; boot_periods_left = 3; step_idx = 0 })

unfoldable pub drv_led_set : Bool → Led → Led
drv_led_set on l = record l { pin = on; timer = none }

unfoldable pub drv_led_set_enabled : Bool → Led → Led
unfolding show_step
drv_led_set_enabled true l =
    if l.enabled
    then l
    else show_step (record l { enabled = true; pattern = run; boot_periods_left = 0; step_idx = 0 })
drv_led_set_enabled false l =
    if not l.enabled then l else record l { enabled = false; pin = false; timer = none }

unfoldable pub drv_led_toggle : Led → Led
drv_led_toggle l = record l { pin = not l.pin }
