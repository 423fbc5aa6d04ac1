-- ===== src/Drivers/Ramp.antt =====
-- The ramp of src/drivers/max5419.c as a walk of the wiper.
use moamoa_caterpillar_firmw.Base.{
  ℕ, zero, suc, ◌+◌, ◌-◌, ◌≤◌, ◌≡◌, ◌⊎◌, refl, ap, sym, ◌∙◌, subst, inl, inr, true, false,
  Bool-cases, Option-cases, List, [], ◌∷◌, ◌++◌, append_assoc, none, some, ltb, ◌==◌, ==_iff, arith,
}
use moamoa_caterpillar_firmw.Errno.{Status, ok, err, is_err, Status-cases}
use moamoa_caterpillar_firmw.Drivers.Digipot.{
  Digipot, tap_max, tap_written, max5419_set_tap, next_tap, ramp_loop, ramp_to_tap,
}

-- The wiper goes from one position to another by single steps, which are listed last first.
pub data Walk (from : ℕ) : List ℕ → ℕ → Type 0 where
  stay : Walk from [] from
  step :
      {ws : List ℕ} {at to : ℕ}
      → Walk from ws at
      → (to ≡ at + 1) ⊎ (at ≡ to + 1)
      → Walk from (to ∷ ws) to

Walk-trans : {a b c : ℕ} {xs ys : List ℕ} → Walk a xs b → Walk b ys c → Walk a (ys ++ xs) c
Walk-trans p stay = p
Walk-trans p (step q s) = step (Walk-trans p q) s

-- What a ramp from one position towards another leaves, with its result.
pub record Ramped (from tap : ℕ) (d : Digipot) (r : Status × Digipot) : Type 0 where
  pub at : ℕ
  pub steps : List ℕ
  pub walk : Walk from steps at
  pub within : at ≤ tap_max
  pub cur_tap : r.1.cur_tap ≡ some at
  pub written : r.1.written ≡ steps ++ d.written
  pub reached : r.0 ≡ ok → at ≡ tap

-- A tap is written, or nothing but the number of transfers changes.
abbrev pub TapDone : ℕ → Digipot → Status × Digipot → Type 0
TapDone tap d r =
    ((r.0 ≡ ok) × (r.1.cur_tap ≡ some tap) × (r.1.written ≡ tap ∷ d.written))
    ⊎ ((is_err r.0 ≡ true) × (r.1.cur_tap ≡ d.cur_tap) × (r.1.written ≡ d.written))

tap_written-TapDone :
    (i2c : ℕ → Status) (tap transfers : ℕ) (st : Status) (d : Digipot)
    → TapDone tap d (tap_written i2c tap st (record d { transfers = transfers }))
unfolding tap_written
tap_written-TapDone i2c tap transfers ok d = inl (refl, refl, refl)
tap_written-TapDone i2c tap transfers (err e) d = inr (refl, refl, refl)

pub set_tap-TapDone :
    (i2c : ℕ → Status) (tap : ℕ) (d : Digipot)
    → tap ≤ tap_max
    → TapDone tap d (max5419_set_tap i2c tap d)
unfolding max5419_set_tap
set_tap-TapDone i2c tap d h =
    let small : ltb tap_max tap ≡ false = ground (arith, h) in
    elim (Status-cases (i2c d.transfers)) [
      | inl first ↦
          rw (small, first, max5419_set_tap) (tap_written-TapDone i2c tap (d.transfers + 1) ok d)
      | inr (e, failed) ↦
          rw (small, failed, max5419_set_tap) (tap_written-TapDone i2c tap (d.transfers + 2) _ d)
    ]

-- Without a failed transfer a tap is written.
pub set_tap-failed :
    (i2c : ℕ → Status) (tap : ℕ) (d : Digipot)
    → tap ≤ tap_max
    → is_err (max5419_set_tap i2c tap d).0 ≡ true
    → is_err (i2c d.transfers) ≡ true
unfolding max5419_set_tap tap_written
set_tap-failed i2c tap d h e = ground (arith, h, e)

-- A transfer that succeeds writes the tap.
set_tap-ok :
    (i2c : ℕ → Status) (tap : ℕ) (d : Digipot)
    → tap ≤ tap_max
    → ((k : ℕ) → i2c k ≡ ok)
    → (max5419_set_tap i2c tap d).0 ≡ ok
unfolding max5419_set_tap tap_written
set_tap-ok i2c tap d h good = ground (arith, h, good d.transfers)

next_tap-step :
    (i2c : ℕ → Status) (cur tap : ℕ)
    → (cur == tap) ≡ false
    → let n = next_tap i2c cur tap in
      ((n ≡ cur + 1) ⊎ (cur ≡ n + 1)) × ((n - tap) + (tap - n) + 1 ≡ (cur - tap) + (tap - cur))
unfolding next_tap
next_tap-step i2c cur tap h = ground arith

next_tap-within :
    (i2c : ℕ → Status) (cur tap : ℕ)
    → cur ≤ tap_max
    → tap ≤ tap_max
    → next_tap i2c cur tap ≤ tap_max
unfolding next_tap
next_tap-within i2c cur tap h k = ground arith

pub ok_or_err {ℓ} : {A : Type ℓ} (st : Status) → st ≡ ok → is_err st ≡ true → A
ok_or_err ok e h = absurd (cc)
ok_or_err (err e) h k = absurd (cc)

ramp_loop-Ramped :
    (i2c : ℕ → Status) (fuel cur tap : ℕ) (d : Digipot)
    → d.cur_tap ≡ some cur
    → cur ≤ tap_max
    → tap ≤ tap_max
    → (cur - tap) + (tap - cur) ≤ fuel
    → Ramped cur tap d (ramp_loop i2c fuel cur tap d)
unfolding ramp_loop
ramp_loop-Ramped i2c zero cur tap d at h k enough = record {
  at = cur;
  steps = [];
  walk = stay;
  within = h;
  cur_tap = at;
  written = refl;
  reached = λ e. omega (arith, enough);
}
ramp_loop-Ramped i2c (suc fuel) cur tap d at h k enough = elim (Bool-cases (cur == tap)) [
  | inl there ↦ rw there (record {
    at = cur;
    steps = [];
    walk = stay;
    within = h;
    cur_tap = at;
    written = refl;
    reached = λ e. (==_iff cur tap).0 there;
  })
  | inr off ↦
      let n = next_tap i2c cur tap in
      let (near, closer) = next_tap-step i2c cur tap off in
      let small = next_tap-within i2c cur tap h k in
      let s = max5419_set_tap i2c n d in
      elim (set_tap-TapDone i2c n d small) [
        | inr (failed, same, kept) ↦
            rw (off, failed)
              (record {
                at = cur;
                steps = [];
                walk = stay;
                within = h;
                cur_tap = same ∙ at;
                written = kept;
                reached = λ e. ok_or_err s.0 e failed;
              })
        | inl (sent, moved, added) ↦
            let fine : is_err s.0 ≡ false = ap is_err sent in
            let rest = ramp_loop-Ramped i2c fuel n tap s.1 moved small k (omega (arith, closer)) in
            rw (off, fine)
              (record {
                at = rest.at;
                steps = rest.steps ++ n ∷ [];
                walk = Walk-trans (step stay near) rest.walk;
                within = rest.within;
                cur_tap = rest.cur_tap;
                written =
                    rest.written
                    ∙ ap (λ w. rest.steps ++ w) added
                    ∙ sym (append_assoc rest.steps (n ∷ []) d.written);
                reached = rest.reached;
              })
      ]
]

ramp_known :
    (i2c : ℕ → Status) (cur tap : ℕ) (d : Digipot)
    → d.cur_tap ≡ some cur
    → ramp_to_tap i2c tap d ≡ ramp_loop i2c ((cur - tap) + (tap - cur)) cur tap d
unfolding ramp_to_tap
ramp_known i2c cur tap d at = ground (arith, at)

pub ramp_unknown :
    (i2c : ℕ → Status) (tap : ℕ) (d : Digipot)
    → d.cur_tap ≡ none
    → ramp_to_tap i2c tap d ≡ max5419_set_tap i2c tap d
unfolding ramp_to_tap
ramp_unknown i2c tap d at = ground (arith, at)

-- A ramp from a known position, whatever the transfers return: the wiper is moved by single steps
-- from where it was, ends where the state says, never leaves 0..253, and is at the tap asked for if
-- the result is success.
pub ramp_to_tap-Ramped :
    (i2c : ℕ → Status) (cur tap : ℕ) (d : Digipot)
    → d.cur_tap ≡ some cur
    → cur ≤ tap_max
    → tap ≤ tap_max
    → Ramped cur tap d (ramp_to_tap i2c tap d)
ramp_to_tap-Ramped i2c cur tap d at h k =
    subst (Ramped cur tap d) (sym (ramp_known i2c cur tap d at))
      (ramp_loop-Ramped i2c _ cur tap d at h k (omega arith))

ramp_loop-ok :
    (i2c : ℕ → Status) (fuel cur tap : ℕ) (d : Digipot)
    → ((i : ℕ) → i2c i ≡ ok)
    → cur ≤ tap_max
    → tap ≤ tap_max
    → (ramp_loop i2c fuel cur tap d).0 ≡ ok
unfolding ramp_loop
ramp_loop-ok i2c zero cur tap d good h k = refl
ramp_loop-ok i2c (suc fuel) cur tap d good h k = elim (Bool-cases (cur == tap)) [
  | inl there ↦ rw there refl
  | inr off ↦
      let small = next_tap-within i2c cur tap h k in
      let fine = ap is_err (set_tap-ok i2c (next_tap i2c cur tap) d small good) in
      rw (off, fine) (ramp_loop-ok i2c fuel (next_tap i2c cur tap) tap _ good small k)
]

abbrev Reaches : ℕ → Status × Digipot → Type 0
Reaches tap r = (r.0 ≡ ok) × (r.1.cur_tap ≡ some tap)

set_tap-Reaches :
    (i2c : ℕ → Status) (tap : ℕ) (d : Digipot)
    → ((i : ℕ) → i2c i ≡ ok)
    → tap ≤ tap_max
    → Reaches tap (max5419_set_tap i2c tap d)
set_tap-Reaches i2c tap d good k =
    let e = set_tap-ok i2c tap d k good in
    elim (set_tap-TapDone i2c tap d k) [
      | inl (sent, moved, added) ↦ (e, moved)
      | inr (failed, same, kept) ↦ ok_or_err _ e failed
    ]

-- When each transfer succeeds, a ramp to any tap in 0..253 ends with success and at that tap, from
-- a known position and from none.
pub ramp_to_tap-reaches :
    (i2c : ℕ → Status) (tap : ℕ) (d : Digipot)
    → ((i : ℕ) → i2c i ≡ ok)
    → ((cur : ℕ) → d.cur_tap ≡ some cur → cur ≤ tap_max)
    → tap ≤ tap_max
    → ((ramp_to_tap i2c tap d).0 ≡ ok) × ((ramp_to_tap i2c tap d).1.cur_tap ≡ some tap)
ramp_to_tap-reaches i2c tap d good inside k = elim (Option-cases d.cur_tap) [
  | inl unknown ↦
      subst (Reaches tap) (sym (ramp_unknown i2c tap d unknown)) (set_tap-Reaches i2c tap d good k)
  | inr (cur, at) ↦
      let r = ramp_to_tap-Ramped i2c cur tap d at (inside cur at) k in
      let e =
        ap (λ x. x.0) (ramp_known i2c cur tap d at)
        ∙ ramp_loop-ok i2c _ cur tap d good (inside cur at) k in
      (e, r.cur_tap ∙ ap some (r.reached e))
]

-- The wiper's position, if it is known, is in 0..253.
abbrev pub Inside : Digipot → Type 0
Inside d = (cur : ℕ) → d.cur_tap ≡ some cur → cur ≤ tap_max

same_some : {m n : ℕ} → some m ≡ some n → m ≡ n
same_some e = cc

-- A ramp to such a position, whatever the transfers return.
pub ramp_to_tap-Inside :
    (i2c : ℕ → Status) (tap : ℕ) (d : Digipot)
    → Inside d
    → tap ≤ tap_max
    → let r = ramp_to_tap i2c tap d in Inside r.1 × (r.0 ≡ ok → r.1.cur_tap ≡ some tap)
ramp_to_tap-Inside i2c tap d inside k = elim (Option-cases d.cur_tap) [
  | inr (cur, at) ↦
      let r = ramp_to_tap-Ramped i2c cur tap d at (inside cur at) k in
      (
        λ c e. omega (arith, r.within, same_some (sym e ∙ r.cur_tap)),
        λ e. r.cur_tap ∙ ap some (r.reached e),
      )
  | inl unknown ↦
      let same = ramp_unknown i2c tap d unknown in
      elim (set_tap-TapDone i2c tap d k) [
        | inl (sent, moved, added) ↦
            rw same (λ c e. omega (arith, k, same_some (sym e ∙ moved)), λ e. moved)
        | inr (failed, kept, none_added) ↦
            rw same (λ c e. inside c (sym kept ∙ e), λ e. ok_or_err _ e failed)
      ]
]
