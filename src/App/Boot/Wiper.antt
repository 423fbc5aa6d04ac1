-- ===== src/App/Boot/Wiper.antt =====
-- Where a boot leaves the wiper: `max5419_init` and `max5419_set_voltage` in src/app/app.c.
use moamoa_caterpillar_firmw.Base.{
  ℕ, zero, suc, ◌≤◌, ◌≡◌, ◌⊎◌, refl, sym, ◌∙◌, ap, inl, inr, Bool, true, false, none, some,
  Bool-cases, arith,
}
use moamoa_caterpillar_firmw.Errno.{Errno, Status, err, eio, is_err, Status-cases}
use moamoa_caterpillar_firmw.Settings.Registry.{motor_vdc_mv}
use moamoa_caterpillar_firmw.Settings.Store.{Store, settings_get}
use moamoa_caterpillar_firmw.Drivers.Digipot.{Digipot, tap_max, probe_loop, max5419_init}
use moamoa_caterpillar_firmw.Drivers.Ramp.{Inside, ramp_unknown, set_tap-TapDone, set_tap-failed}
use moamoa_caterpillar_firmw.Drivers.Voltage.{Float, IsFloat, whole, Number, max5419_set_voltage}
use moamoa_caterpillar_firmw.Drivers.Voltage.Safe.{tap_for, Refused, max5419_set_voltage-safe}
use moamoa_caterpillar_firmw.App.Boot.{BootEnv, boot_voltage}

probe_loop-cur_tap :
    (i2c : ℕ → Status) (n : ℕ) (ret : Status) (d : Digipot)
    → (probe_loop i2c n ret d).1.cur_tap ≡ d.cur_tap
unfolding probe_loop
probe_loop-cur_tap i2c zero ret d = refl
probe_loop-cur_tap i2c (suc n) ret d = elim (Bool-cases (is_err (i2c d.transfers))) [
  | inl failed ↦ rw failed (probe_loop-cur_tap i2c n _ _)
  | inr found ↦ rw found refl
]

max5419_init-cur_tap :
    (i2c : ℕ → Status) (up : Bool) (d : Digipot) → (max5419_init i2c up d).1.cur_tap ≡ d.cur_tap
unfolding max5419_init
max5419_init-cur_tap i2c true d = probe_loop-cur_tap i2c 3 (err eio) d
max5419_init-cur_tap i2c false d = refl

-- A transfer on the bus fails, by its number.
abbrev pub TransferFails : (ℕ → Status) → Type 0
TransferFails i2c = (k : ℕ) × (is_err (i2c k) ≡ true)

max5419_init-failed :
    (i2c : ℕ → Status) (up : Bool) (d : Digipot) (e : Errno)
    → (max5419_init i2c up d).0 ≡ err e
    → (up ≡ false) ⊎ TransferFails i2c
unfolding max5419_init probe_loop
max5419_init-failed i2c false d e failed = inl refl
max5419_init-failed i2c true d e failed = elim (Bool-cases (is_err (i2c d.transfers))) [
  | inl bad ↦ inr (d.transfers, bad)
  | inr good ↦ absurd (ground (arith, good, failed))
]

module _ {ℓ} {W : Type ℓ} ⦃f : Float W⦄ (laws : IsFloat W) (env : BootEnv) where
  open laws use {lit_finite, lit_lt, finite_number, div_number}

  -- The voltage that the settings ask for.
  abbrev pub vdc_of : Store → W
  vdc_of s = f.div (whole (settings_get s motor_vdc_mv)) (whole 1000)

  -- The wiper is at the position of that voltage, which is in 0..253; or nothing was written, since
  -- the bus was not ready, a transfer failed, or the voltage is one that is refused.
  abbrev pub Wiper : Store → Digipot → Type 0
  Wiper s d =
      ((tap_for laws (vdc_of s) ≤ tap_max) × (d.cur_tap ≡ some (tap_for laws (vdc_of s))))
      ⊎ ((d.cur_tap ≡ none)
          × ((env.i2c_ready ≡ false) ⊎ TransferFails env.i2c_write ⊎ Refused laws (vdc_of s)))

  vdc-Number : (s : Store) → Number (vdc_of s)
  vdc-Number s =
      let mv = settings_get s motor_vdc_mv in
      let thousand = lit_finite 1000 1 (omega arith) in
      div_number _ _ (lit_finite mv 1 (omega arith)) (finite_number _ thousand)
        (lit_lt 0 1000 (omega arith) (omega arith))

  set_voltage-Wiper :
      (s : Store) (d : Digipot)
      → d.cur_tap ≡ none
      → Wiper s (max5419_set_voltage env.i2c_write (vdc_of s) d).1
  set_voltage-Wiper s d at =
      let v = vdc_of s in
      let inside : Inside d = λ cur k. absurd (let q = sym at ∙ k in cc) in
      let safe = max5419_set_voltage-safe laws env.i2c_write v d (vdc-Number s) inside in
      elim safe.1 [
        | inl (refused, same) ↦ inr (ap (λ r. r.1.cur_tap) same ∙ at, inr (inr refused))
        | inr (settable, small, low, same, there) ↦
            let direct = same ∙ ramp_unknown env.i2c_write (tap_for laws v) d at in
            elim (set_tap-TapDone env.i2c_write (tap_for laws v) d small) [
              | inl (sent, moved, added) ↦ inl (small, ap (λ r. r.1.cur_tap) direct ∙ moved)
              | inr (failed, kept, none_added) ↦ inr (
                ap (λ r. r.1.cur_tap) direct ∙ kept ∙ at,
                inr (
                    inl
                      (d.transfers, set_tap-failed env.i2c_write (tap_for laws v) d small failed)),
              )
            ]
      ]

  pub boot_voltage-Wiper :
      (s : Store) (d : Digipot) → d.cur_tap ≡ none → Wiper s (boot_voltage W env s d)
  unfolding boot_voltage
  boot_voltage-Wiper s d at =
      let found = max5419_init env.i2c_write env.i2c_ready d in
      let same = max5419_init-cur_tap env.i2c_write env.i2c_ready d ∙ at in
      elim (Status-cases found.0) [
        | inr (x, failed) ↦
            rw (failed, boot_voltage)
              (inr (
                same,
                elim (max5419_init-failed env.i2c_write env.i2c_ready d x failed) [
                  | inl down ↦ inl down
                  | inr bad ↦ inr (inl bad)
                ],
              ))
        | inl there ↦ rw (there, boot_voltage) (set_voltage-Wiper s found.1 same)
      ]
