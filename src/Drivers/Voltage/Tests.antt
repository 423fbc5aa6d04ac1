-- ===== src/Drivers/Voltage/Tests.antt =====
-- Runs of the conversion of src/drivers/max5419.c, with fixed-point numbers of three decimals for
-- `float`.
use moamoa_caterpillar_firmw.Base.{◌≡◌, refl, some, [], arith}
use moamoa_caterpillar_firmw.Errno.{ok, err, einval}
use moamoa_caterpillar_firmw.Drivers.Digipot.{
  Digipot, tap_written, max5419_set_tap, next_tap, ramp_loop, ramp_to_tap,
}
use moamoa_caterpillar_firmw.Drivers.Ramp.{Inside}
use moamoa_caterpillar_firmw.Drivers.Voltage.{max5419_set_voltage, max5419_get_target_mv}
use moamoa_caterpillar_firmw.Drivers.Voltage.Fixed.{Fixed, above, fixed_float, fixed-IsFloat}
use moamoa_caterpillar_firmw.Drivers.Voltage.Safe.{Applied, max5419_set_voltage-safe}

abbrev midscale : Digipot
midscale = record { cur_tap = some 128; transfers = 3; written = [] }

-- 3.1 V.
abbrev asked : Fixed
asked = above 3100

max5419_set_voltage-safe_example :
    let r = max5419_set_voltage (λ k. ok) asked midscale in
    Inside r.1 × Applied fixed-IsFloat (λ k. ok) asked midscale r
max5419_set_voltage-safe_example =
    max5419_set_voltage-safe fixed-IsFloat (λ k. ok) asked midscale refl
      (λ cur e. ground (arith, e))

-- 3.1 V is tap 246, which is 3.11 V; these numbers round down.
set_3100 : (max5419_set_voltage (λ k. ok) asked midscale).1.cur_tap ≡ some 246
unfolding max5419_set_voltage ramp_to_tap ramp_loop max5419_set_tap tap_written next_tap
set_3100 = refl

refused_4300 : (max5419_set_voltage (λ k. ok) (above 4300) midscale).0 ≡ err einval
unfolding max5419_set_voltage
refused_4300 = refl

get_246 : max5419_get_target_mv Fixed (record midscale { cur_tap = some 246 }) ≡ 3109
unfolding max5419_get_target_mv
get_246 = refl
