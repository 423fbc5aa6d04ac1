-- ===== src/Drivers/Voltage/Safe.antt =====
-- No voltage asked for takes the wiper past its limit: src/drivers/max5419.c.
use moamoa_caterpillar_firmw.Base.{
  ℕ, ◌≤◌, ◌<◌, ◌≡◌, ◌⊎◌, refl, inl, inr, true, false, some, Bool-cases, u8, arith,
}
use moamoa_caterpillar_firmw.Errno.{Status, ok, err, einval}
use moamoa_caterpillar_firmw.Drivers.Digipot.{Digipot, tap_max, ramp_to_tap}
use moamoa_caterpillar_firmw.Drivers.Ramp.{Inside, ramp_to_tap-Inside}
use moamoa_caterpillar_firmw.Drivers.Voltage.{
  Float, IsFloat, whole, half, vout_max_v, tap_of_voltage, clamp_tap, max5419_set_voltage, Number,
  Positive,
}

module _ {ℓ} {W : Type ℓ} ⦃f : Float W⦄ (laws : IsFloat W) where
  open laws use {
    lit_finite, lit_lt, finite_number, lt_of_not_le, sub_number_left, sub_number_right,
    mul_number_left, mul_number_right, div_number, scale_finite, scale_positive, round_small,
  }

  -- The clamp leaves a number between 0 and 253.
  abbrev Clamped : W → Type 0
  Clamped c = Number c × (f.lt c (whole 0) ≡ false) × (f.lt (whole tap_max) c ≡ false)

  clamp_tap-Clamped : (t : W) → Number t → Clamped (clamp_tap t)
  unfolding clamp_tap
  clamp_tap-Clamped t n = elim (Bool-cases (f.lt t (whole 0))) [
    | inl low ↦ rw low (
      finite_number _ (lit_finite 0 1 (omega arith)),
      lit_lt 0 0 (omega arith) (omega arith),
      lit_lt 253 0 (omega arith) (omega arith),
    )
    | inr above ↦ elim (Bool-cases (f.lt (whole tap_max) t)) [
      | inl high ↦
          rw (above, high)
            (
              finite_number _ (lit_finite 253 1 (omega arith)),
              lit_lt 253 0 (omega arith) (omega arith),
              lit_lt 253 253 (omega arith) (omega arith),
            )
      | inr inside ↦ rw (above, inside) (n, above, inside)
    ]
  ]

  two-Positive : Positive {W = W} (whole 2)
  two-Positive = lit_lt 0 2 (omega arith) (omega arith)

  -- The wiper position before the clamp is a number.
  tap_of_voltage-Number :
      (voltage : W)
      → Number voltage
      → f.le (f.sub (f.mul (whole 2) voltage) (whole 1)) (whole 0) ≡ false
      → Number (tap_of_voltage voltage)
  unfolding tap_of_voltage
  tap_of_voltage-Number voltage n above =
      let lit = λ (k d : ℕ) (h : 0 < d). lit_finite k d h in
      let den =
        sub_number_left _ _ (mul_number_right _ _ (lit 2 1 (omega arith)) two-Positive n)
          (lit 1 1 (omega arith)) in
      let zero = finite_number _ (lit 0 1 (omega arith)) in
      let pos = lt_of_not_le _ _ zero den above in
      let bottom = div_number _ _ (lit 100 1 (omega arith)) den pos in
      let rhw = sub_number_left _ _ bottom (lit 121 10 (omega arith)) in
      sub_number_right _ _ (lit 255 1 (omega arith))
        (mul_number_left _ _ rhw scale_finite scale_positive)

  tap_written-le : (c : W) → Clamped c → u8 (f.to_int (f.add c half)) ≤ tap_max
  tap_written-le c (n, low, high) = omega (arith, round_small c 253 (omega arith) n low high)

  -- The wiper position of a voltage, and the voltages for which there is one.
  abbrev pub tap_for : W → ℕ
  tap_for voltage = u8 (f.to_int (f.add (clamp_tap (tap_of_voltage voltage)) half))

  abbrev pub Refused : W → Type 0
  Refused voltage =
      (f.le (f.sub (f.mul (whole 2) voltage) (whole 1)) (whole 0) ≡ true)
      ⊎ (f.lt vout_max_v voltage ≡ true)

  abbrev pub Settable : W → Type 0
  Settable voltage =
      (f.le (f.sub (f.mul (whole 2) voltage) (whole 1)) (whole 0) ≡ false)
      × (f.lt vout_max_v voltage ≡ false)

  -- One or the other: the refused request changes nothing; the settable one ramps to its position.
  abbrev pub Applied : (ℕ → Status) → W → Digipot → Status × Digipot → Type 0
  Applied i2c_write voltage d r =
      (Refused voltage × (r ≡ (err einval, d)))
      ⊎ (Settable voltage
          × (tap_for voltage ≤ tap_max)
          × (f.lt (tap_of_voltage voltage) (whole 0) ≡ true → tap_for voltage ≡ 0)
          × (r ≡ ramp_to_tap i2c_write (tap_for voltage) d)
          × (r.0 ≡ ok → r.1.cur_tap ≡ some (tap_for voltage)))

  tap_for-low : (voltage : W) → f.lt (tap_of_voltage voltage) (whole 0) ≡ true → tap_for voltage ≡ 0
  unfolding clamp_tap
  tap_for-low voltage low =
      let zero = finite_number _ (lit_finite 0 1 (omega arith)) in
      let same = lit_lt 0 0 (omega arith) (omega arith) in
      rw low (omega (arith, round_small (whole 0) 0 (omega arith) zero same same))

  -- From a wiper in 0..253 or an unknown one, whatever number is asked for as the voltage, and
  -- whatever the transfers return: a request over the
  -- limit of 4.2 V, or with no positive denominator, is refused with -EINVAL and changes nothing; any
  -- other one ramps the wiper to the position of that voltage, which is in 0..253, and 0 where the
  -- formula is below it, and which the wiper has when the result is a success. In either case the
  -- wiper's position stays in that range.
  pub max5419_set_voltage-safe :
      (i2c_write : ℕ → Status) (voltage : W) (d : Digipot)
      → Number voltage
      → Inside d
      → let r = max5419_set_voltage i2c_write voltage d in
        Inside r.1 × Applied i2c_write voltage d r
  unfolding max5419_set_voltage
  max5419_set_voltage-safe i2c_write voltage d n inside =
      elim (Bool-cases (f.le (f.sub (f.mul (whole 2) voltage) (whole 1)) (whole 0))) [
        | inl low ↦ rw low (inside, inl (inl refl, refl))
        | inr above ↦ elim (Bool-cases (f.lt vout_max_v voltage)) [
          | inl high ↦ rw (above, high) (inside, inl (inr refl, refl))
          | inr fine ↦
              let small =
                tap_written-le _ (clamp_tap-Clamped _ (tap_of_voltage-Number voltage n above)) in
              let (kept, there) = ramp_to_tap-Inside i2c_write (tap_for voltage) d inside small in
              rw (above, fine) (kept, inr ((refl, refl), small, tap_for-low voltage, refl, there))
        ]
      ]
