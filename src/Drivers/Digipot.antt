-- ===== src/Drivers/Digipot.antt =====
-- src/drivers/max5419.c: the wiper and its ramp. `i2c_write` is Zephyr's: the result of each
-- transfer, by its number, is a parameter.
use moamoa_caterpillar_firmw.Base.{
  ℕ, zero, suc, ◌+◌, ◌-◌, Bool, List, ◌∷◌, Option, none, some, if◌then◌else◌, ltb, ◌==◌,
}
use moamoa_caterpillar_firmw.Errno.{Status, ok, err, einval, enodev, eio, is_err}

abbrev pub tap_max : ℕ
tap_max = 253

-- `cur_tap`, `none` for -1, and what an observer has seen: how many transfers were made, and the
-- wiper positions that were written, the last one first.
pub record Digipot : Type 0 where
  pub cur_tap : Option ℕ
  pub transfers : ℕ
  pub written : List ℕ

module _ (i2c_write : ℕ → Status) where
  -- The probe loop of `max5419_init`, with the attempts left and the last result.
  unfoldable pub probe_loop : ℕ → Status → Digipot → Status × Digipot
  probe_loop zero ret d = (ret, d)
  probe_loop (suc attempts) ret d =
      let d1 = record d { transfers = d.transfers + 1 } in
      let rest = probe_loop attempts (i2c_write d.transfers) d1 in
      if is_err (i2c_write d.transfers) then rest else (ok, d1)

  unfoldable pub max5419_init : Bool → Digipot → Status × Digipot
  unfolding probe_loop
  max5419_init is_ready d = if is_ready then probe_loop 3 (err eio) d else (err enodev, d)

  -- The end of `max5419_set_tap`, for the result of the last transfer.
  unfoldable pub tap_written : ℕ → Status → Digipot → Status × Digipot
  tap_written tap (err e) d = (err e, d)
  tap_written tap ok d = (ok, record d { cur_tap = some tap; written = tap ∷ d.written })

  unfoldable pub max5419_set_tap : ℕ → Digipot → Status × Digipot
  unfolding tap_written
  max5419_set_tap tap d =
      if ltb tap_max tap then (err einval, d) else elim (i2c_write d.transfers) [
        | ok ↦ tap_written tap ok (record d { transfers = d.transfers + 1 })
        | err e ↦
            tap_written tap (i2c_write (d.transfers + 1)) (record d { transfers = d.transfers + 2 })
      ]

  -- One step towards the tap.
  unfoldable pub next_tap : ℕ → ℕ → ℕ
  next_tap cur tap = if ltb cur tap then cur + 1 else cur - 1

  -- The loop of `ramp_to_tap`, on fuel; the result of a step that fails is the result.
  unfoldable pub ramp_loop : ℕ → ℕ → ℕ → Digipot → Status × Digipot
  unfolding next_tap
  ramp_loop zero cur tap d = (ok, d)
  ramp_loop (suc fuel) cur tap d =
      let step = max5419_set_tap (next_tap cur tap) d in
      let rest = ramp_loop fuel (next_tap cur tap) tap step.1 in
      if cur == tap then (ok, d) else (if is_err step.0 then step else rest)

  -- `ramp_to_tap`: a step moves the wiper by one, so as many rounds as the distance are enough.
  unfoldable pub ramp_to_tap : ℕ → Digipot → Status × Digipot
  unfolding ramp_loop
  ramp_to_tap tap d = elim d.cur_tap [
    | none ↦ max5419_set_tap tap d
    | some cur ↦ ramp_loop ((cur - tap) + (tap - cur)) cur tap d
  ]
