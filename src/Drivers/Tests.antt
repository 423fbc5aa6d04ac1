-- ===== src/Drivers/Tests.antt =====
-- Runs of the drivers: src/drivers/driver_pwm.c, max5419.c and driver_led.c.
use moamoa_caterpillar_firmw.Base.{ℕ, ◌≤◌, ◌≡◌, refl, true, [], ◌∷◌, none, some, arith}
use moamoa_caterpillar_firmw.Errno.{ok, err, eio}
use moamoa_caterpillar_firmw.Drivers.Digipot.{Digipot, tap_max, ramp_to_tap}
use moamoa_caterpillar_firmw.Drivers.Ramp.{Ramped, ramp_to_tap-Ramped, ramp_to_tap-reaches}
use moamoa_caterpillar_firmw.Drivers.Led.{Led, boot}

abbrev midscale : Digipot
midscale = record { cur_tap = some 128; transfers = 3; written = 128 ∷ [] }

ramp_to_tap-Ramped_example : Ramped 128 240 midscale (ramp_to_tap (λ k. err eio) 240 midscale)
ramp_to_tap-Ramped_example =
    ramp_to_tap-Ramped (λ k. err eio) 128 240 midscale refl (omega arith) (omega arith)

midscale_inside : (cur : ℕ) → midscale.cur_tap ≡ some cur → cur ≤ tap_max
midscale_inside cur e = ground arith

ramp_to_tap-reaches_example :
    ((ramp_to_tap (λ k. ok) 240 midscale).0 ≡ ok)
    × ((ramp_to_tap (λ k. ok) 240 midscale).1.cur_tap ≡ some 240)
ramp_to_tap-reaches_example =
    ramp_to_tap-reaches (λ k. ok) 240 midscale (λ i. refl) midscale_inside (omega arith)

abbrev lit : Led
lit = record {
  pattern = boot;
  step_idx = 0;
  boot_periods_left = 0;
  enabled = true;
  pin = true;
  timer = none;
}
