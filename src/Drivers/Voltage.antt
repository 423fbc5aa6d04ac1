-- ===== src/Drivers/Voltage.antt =====
-- src/drivers/max5419.c: the conversion between a voltage and a wiper position. The arithmetic of
-- `float` is the processor's: its operations are a record, and the laws of IEEE 754 that the code
-- relies on another.
use moamoa_caterpillar_firmw.Base.{
  ℕ, ◌-◌, ◌≤◌, ◌<◌, ◌≡◌, Bool, true, false, not, none, some, if◌then◌else◌, ltb, u8, u16,
}
use moamoa_caterpillar_firmw.Errno.{Status, err, einval}
use moamoa_caterpillar_firmw.Drivers.Digipot.{Digipot, tap_max, ramp_to_tap}
pub mod Safe
pub mod Fixed
mod Tests

-- `of_ratio n d` is the literal of that value. `to_int` is the conversion to an integer type of a
-- value that is not negative, before it is cut to the type's width.
pub record Float {ℓ} (W : Type ℓ) : Type ℓ where
  pub of_ratio : ℕ → ℕ → W
  pub add : W → W → W
  pub sub : W → W → W
  pub mul : W → W → W
  pub div : W → W → W
  pub le : W → W → Bool
  pub lt : W → W → Bool
  pub is_finite : W → Bool
  pub to_int : W → ℕ

module _ {ℓ} {W : Type ℓ} ⦃f : Float W⦄ where
  abbrev pub whole : ℕ → W
  whole n = f.of_ratio n 1

  abbrev pub half : W
  half = f.of_ratio 1 2

  -- R_TOP_K, R_SERIES_K, R_POT_K, VOUT_MAX_V
  abbrev pub r_top_k : W
  r_top_k = whole 100

  abbrev pub r_series_k : W
  r_series_k = f.of_ratio 121 10

  abbrev pub r_pot_k : W
  r_pot_k = whole 200

  abbrev pub vout_max_v : W
  vout_max_v = f.div (whole 4200) (whole 1000)

  -- The product and the difference before the clamp, and the clamp.
  unfoldable pub tap_of_voltage : W → W
  tap_of_voltage voltage =
      let den = f.sub (f.mul (whole 2) voltage) (whole 1) in
      let rhw_k = f.sub (f.div r_top_k den) r_series_k in
      f.sub (whole 255) (f.mul rhw_k (f.div (whole 255) r_pot_k))

  unfoldable pub clamp_tap : W → W
  clamp_tap tap_f =
      if f.lt tap_f (whole 0)
      then whole 0
      else (if f.lt (whole tap_max) tap_f then whole tap_max else tap_f)

  unfoldable pub max5419_set_voltage : (ℕ → Status) → W → Digipot → Status × Digipot
  unfolding tap_of_voltage clamp_tap
  max5419_set_voltage i2c_write voltage d =
      if f.le (f.sub (f.mul (whole 2) voltage) (whole 1)) (whole 0)
      then (err einval, d)
      else (if f.lt vout_max_v voltage
          then (err einval, d)
          else ramp_to_tap i2c_write
              (u8 (f.to_int (f.add (clamp_tap (tap_of_voltage voltage)) half))) d)

  -- Not a NaN.
  abbrev pub Number : W → Type 0
  Number x = f.le x x ≡ true

  abbrev pub Finite : W → Type 0
  Finite x = f.is_finite x ≡ true

  abbrev pub Positive : W → Type 0
  Positive x = f.lt (whole 0) x ≡ true

unfoldable pub max5419_get_target_mv {ℓ} : (W : Type ℓ) ⦃f : Float W⦄ → Digipot → ℕ
max5419_get_target_mv W ⦃f⦄ d = elim d.cur_tap [
  | none ↦ 0
  | some cur ↦
      let rhw_k : W = f.div (f.mul r_pot_k (whole (255 - cur))) (whole 255) in
      let v : W = f.mul half (f.add (whole 1) (f.div r_top_k (f.add r_series_k rhw_k))) in
      u16 (f.to_int (f.add (f.mul v (whole 1000)) half))
]

-- The laws. Each holds in IEEE 754 with rounding to the nearest: numbers are ordered in full, small
-- integers and the ratio 255/200 are finite, no operation below is one of inf - inf, 0 * inf, 0 / 0
-- or inf / inf, and up to 65535 a half more than an integer is exact.
pub record IsFloat {ℓ} (W : Type ℓ) ⦃f : Float W⦄ : Type ℓ where
  pub lit_finite : (n d : ℕ) → 0 < d → Finite (f.of_ratio n d)
  pub lit_lt : (a b : ℕ) → a < 65_536 → b < 65_536 → f.lt (whole a) (whole b) ≡ ltb a b
  pub finite_number : (x : W) → Finite x → Number x
  pub lt_of_not_le : (x y : W) → Number x → Number y → f.le y x ≡ false → f.lt x y ≡ true
  pub sub_number_left : (x y : W) → Number x → Finite y → Number (f.sub x y)
  pub sub_number_right : (x y : W) → Finite x → Number y → Number (f.sub x y)
  pub mul_number_left : (x y : W) → Number x → Finite y → Positive y → Number (f.mul x y)
  pub mul_number_right : (x y : W) → Finite x → Positive x → Number y → Number (f.mul x y)
  pub div_number : (x y : W) → Finite x → Number y → Positive y → Number (f.div x y)
  pub scale_finite : Finite (f.div (whole 255) (whole 200))
  pub scale_positive : Positive (f.div (whole 255) (whole 200))
  pub round_small :
      (x : W) (n : ℕ)
      → n < 65_536
      → Number x
      → f.lt x (whole 0) ≡ false
      → f.lt (whole n) x ≡ false
      → f.to_int (f.add x half) ≤ n
