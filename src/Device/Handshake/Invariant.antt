-- ===== src/Device/Handshake/Invariant.antt =====
-- The invariant of the handshake, and the application core's accesses: src/app/session.c.
use moamoa_caterpillar_firmw.Base.{
  ℕ, ◌+◌, ◌≤◌, ◌<◌, ◌≡◌, ◌⊎◌, refl, sym, ◌∙◌, ap, not, Bool-cases, inl, inr, ◌==◌, u32, arith,
}
use moamoa_caterpillar_firmw.Imu.Shared.{Shared, imu_shared_magic}
use moamoa_caterpillar_firmw.Device.Session.{Device}
use moamoa_caterpillar_firmw.Device.Handshake.{
  config_of, UpdatePc, resting, decided, odr_stored, content_stored, accel_stored, gyro_stored,
  counted, update_begin, update_step, ApplyPc, polling, pending, got_odr, got_content, got_accel,
  configured, status_stored, System, app_next, other_next,
}

-- A thread outside of `session_imu_run_update`, or in it.
abbrev pub Quiet : UpdatePc → Type 0
Quiet resting = Unit {0}
Quiet _ = ⊥

-- What the thread's local says.
abbrev pub AppOk : Shared → UpdatePc → Type 0
AppOk sh (counted n) = n ≡ u32 (sh.cfg_seq + 1)
AppOk sh _ = Unit {0}

AppOk-Quiet : (sh : Shared) (pc : UpdatePc) → Quiet pc → AppOk sh pc
AppOk-Quiet sh resting q = tt
AppOk-Quiet sh (decided x) q = absurd q
AppOk-Quiet sh (odr_stored x) q = absurd q
AppOk-Quiet sh content_stored q = absurd q
AppOk-Quiet sh accel_stored q = absurd q
AppOk-Quiet sh gyro_stored q = absurd q
AppOk-Quiet sh (counted x) q = absurd q

abbrev pub Still : System → Type 0
Still s = Quiet s.app × Quiet s.other

-- What the coprocessor's locals say, as long as no update has come since it read the count.
abbrev Current : System → Type 0
Current s = Still s × (s.seen ≡ s.bumps)

abbrev pub FlprOk : ℕ → System → ApplyPc → Type 0
FlprOk base s polling =
    (Still s → s.applied_at ≡ s.bumps → s.driven ≡ config_of s.device.sh)
    × (s.device.sh.cfg_status ≡ s.outcome)
FlprOk base s (pending q) = q ≡ u32 (base + s.seen)
FlprOk base s (got_odr q o) = (q ≡ u32 (base + s.seen)) × (Current s → o ≡ s.device.sh.cfg_odr)
FlprOk base s (got_content q o c) =
    (q ≡ u32 (base + s.seen))
    × (Current s → (o ≡ s.device.sh.cfg_odr) × (c ≡ s.device.sh.cfg_content))
FlprOk base s (got_accel q o c a) =
    (q ≡ u32 (base + s.seen))
    × (Current s
        → (o ≡ s.device.sh.cfg_odr)
          × (c ≡ s.device.sh.cfg_content)
          × (a ≡ s.device.sh.cfg_accel_fs))
FlprOk base s (configured q ret) =
    (q ≡ u32 (base + s.seen)) × (Current s → s.driven ≡ config_of s.device.sh) × (ret ≡ s.outcome)
FlprOk base s (status_stored q) =
    (q ≡ u32 (base + s.seen))
    × (Current s → s.driven ≡ config_of s.device.sh)
    × (s.device.sh.cfg_status ≡ s.outcome)

pub record Inv (base : ℕ) (s : System) : Type 0 where
  pub seq : s.device.sh.cfg_seq ≡ u32 (base + s.bumps)
  pub applied : s.device.sh.cfg_applied ≡ u32 (base + s.applied_at)
  pub seen_le : s.seen ≤ s.bumps
  pub applied_le : s.applied_at ≤ s.bumps
  pub app_ok : AppOk s.device.sh s.app
  pub other_ok : AppOk s.device.sh s.other
  pub alone : Quiet s.app ⊎ Quiet s.other
  pub flpr_ok : FlprOk base s s.flpr

-- Nothing that the coprocessor relies on has changed, or an update has come to an end.
abbrev Undisturbed : System → System → Type 0
Undisturbed s t =
    Still t
    → (Still s × (config_of t.device.sh ≡ config_of s.device.sh) × (t.bumps ≡ s.bumps))
      ⊎ ((s.seen < t.bumps) × (s.applied_at < t.bumps))

-- What the observer knows of the coprocessor is as it was.
abbrev SameView : System → System → Type 0
SameView s t =
    (t.seen ≡ s.seen)
    × (t.applied_at ≡ s.applied_at)
    × (t.driven ≡ s.driven)
    × (t.outcome ≡ s.outcome)
    × (t.device.sh.cfg_status ≡ s.device.sh.cfg_status)

module _ (base : ℕ) (s t : System) (same : SameView s t) (calm : Undisturbed s t) where
  Current-back : Current t → Current s × (config_of t.device.sh ≡ config_of s.device.sh)
  Current-back (quiet, e) = elim (calm quiet) [
    | inl (q, c, b) ↦ ((q, sym same.0 ∙ e ∙ b), c)
    | inr (late, _) ↦ absurd (omega (arith, same.0, e, late))
  ]

  pub FlprOk-frame : (pc : ApplyPc) → FlprOk base s pc → FlprOk base t pc
  FlprOk-frame polling (applied, status) = (
    λ quiet e. elim (calm quiet) [
      | inl (q, c, b) ↦ same.2 ∙ applied q (sym same.1 ∙ e ∙ b) ∙ sym c
      | inr (_, late) ↦ absurd (omega (arith, same.1, e, late))
    ],
    same.4 ∙ status ∙ sym same.3,
  )
  FlprOk-frame (pending q) h = rw same.0 h
  FlprOk-frame (got_odr q o) (e, h) =
      (rw same.0 e, λ c. let (c', k) = Current-back c in h c' ∙ ap (λ x. x.odr) (sym k))
  FlprOk-frame (got_content q o c) (e, h) = (
    rw same.0 e,
    λ cur.
        let (c', k) = Current-back cur in
        let (h1, h2) = h c' in (h1 ∙ ap (λ x. x.odr) (sym k), h2 ∙ ap (λ x. x.content) (sym k)),
  )
  FlprOk-frame (got_accel q o c a) (e, h) = (
    rw same.0 e,
    λ cur.
        let (c', k) = Current-back cur in
        let (h1, h2, h3) = h c' in
        (
          h1 ∙ ap (λ x. x.odr) (sym k),
          h2 ∙ ap (λ x. x.content) (sym k),
          h3 ∙ ap (λ x. x.accel_fs) (sym k),
        ),
  )
  FlprOk-frame (configured q ret) (e, h, r) =
      (rw same.0 e, λ cur. let (c', k) = Current-back cur in same.2 ∙ h c' ∙ sym k, r ∙ sym same.3)
  FlprOk-frame (status_stored q) (e, h, r) = (
    rw same.0 e,
    λ cur. let (c', k) = Current-back cur in same.2 ∙ h c' ∙ sym k,
    same.4 ∙ r ∙ sym same.3,
  )

begin-Undisturbed : (s : System) → s.app ≡ resting → Quiet s.app
begin-Undisturbed s e = rw e tt

begin-AppOk : (d : Device) → AppOk d.sh (update_begin d)
unfolding update_begin
begin-AppOk d = elim (Bool-cases (not (d.sh.magic == imu_shared_magic))) [
  | inl off ↦ rw off tt
  | inr on ↦ rw on tt
]

pub begin-Inv :
    (base : ℕ) (s : System)
    → Inv base s
    → s.app ≡ resting
    → s.other ≡ resting
    → Inv base (record s { app = update_begin s.device })
begin-Inv base s v e e' = record {
  seq = v.seq;
  applied = v.applied;
  seen_le = v.seen_le;
  applied_le = v.applied_le;
  app_ok = begin-AppOk s.device;
  other_ok = v.other_ok;
  alone = inr (rw e' tt);
  flpr_ok =
      FlprOk-frame base s (record s { app = update_begin s.device }) (refl, refl, refl, refl, refl)
        (λ q. inl ((begin-Undisturbed s e, q.1), refl, refl)) s.flpr v.flpr_ok;
}

-- A step of the thread, by where it stands.
abbrev Moved : ℕ → ℕ → System → UpdatePc → Type 0
Moved base now s pc =
    let t = app_next now (record s { app = pc }) in
    (t.device.sh.cfg_seq ≡ u32 (base + t.bumps))
    × (t.device.sh.cfg_applied ≡ s.device.sh.cfg_applied)
    × AppOk t.device.sh t.app
    × (AppOk s.device.sh s.other → AppOk t.device.sh s.other)
    × (Quiet t.app ⊎ Quiet s.other)
    × SameView s t
    × Undisturbed (record s { app = pc }) t

app_next-Moved :
    (base now : ℕ) (s : System) (pc : UpdatePc)
    → s.device.sh.cfg_seq ≡ u32 (base + s.bumps)
    → s.seen ≤ s.bumps
    → s.applied_at ≤ s.bumps
    → AppOk s.device.sh pc
    → Quiet pc ⊎ Quiet s.other
    → Moved base now s pc
unfolding update_step
app_next-Moved base now s resting e h k a o = (
  e ∙ ap (λ n. u32 (base + n)) (omega arith),
  refl,
  tt,
  λ w. w,
  inl tt,
  (refl, refl, refl, refl, refl),
  λ q. inl (q, refl, omega arith),
)
app_next-Moved base now s (decided c) e h k a (inr o) = (
  e ∙ ap (λ n. u32 (base + n)) (omega arith),
  refl,
  tt,
  λ w. AppOk-Quiet (app_next now (record s { app = decided c })).device.sh s.other o,
  inr o,
  (refl, refl, refl, refl, refl),
  λ q. absurd q.0,
)
app_next-Moved base now s (odr_stored c) e h k a (inr o) = (
  e ∙ ap (λ n. u32 (base + n)) (omega arith),
  refl,
  tt,
  λ w. AppOk-Quiet (app_next now (record s { app = odr_stored c })).device.sh s.other o,
  inr o,
  (refl, refl, refl, refl, refl),
  λ q. absurd q.0,
)
app_next-Moved base now s content_stored e h k a (inr o) = (
  e ∙ ap (λ n. u32 (base + n)) (omega arith),
  refl,
  tt,
  λ w. AppOk-Quiet (app_next now (record s { app = content_stored })).device.sh s.other o,
  inr o,
  (refl, refl, refl, refl, refl),
  λ q. absurd q.0,
)
app_next-Moved base now s accel_stored e h k a (inr o) = (
  e ∙ ap (λ n. u32 (base + n)) (omega arith),
  refl,
  tt,
  λ w. AppOk-Quiet (app_next now (record s { app = accel_stored })).device.sh s.other o,
  inr o,
  (refl, refl, refl, refl, refl),
  λ q. absurd q.0,
)
app_next-Moved base now s gyro_stored e h k a (inr o) = (
  e ∙ ap (λ n. u32 (base + n)) (omega arith),
  refl,
  refl,
  λ w. AppOk-Quiet (app_next now (record s { app = gyro_stored })).device.sh s.other o,
  inr o,
  (refl, refl, refl, refl, refl),
  λ q. absurd q.0,
)
app_next-Moved base now s (counted n) e h k a (inr o) = (
  omega (arith, a, e),
  refl,
  tt,
  λ w. AppOk-Quiet (app_next now (record s { app = counted n })).device.sh s.other o,
  inr o,
  (refl, refl, refl, refl, refl),
  λ q. inr (omega (arith, h), omega (arith, k)),
)
app_next-Moved base now s (decided c) e h k a (inl o) = absurd o
app_next-Moved base now s (odr_stored c) e h k a (inl o) = absurd o
app_next-Moved base now s content_stored e h k a (inl o) = absurd o
app_next-Moved base now s accel_stored e h k a (inl o) = absurd o
app_next-Moved base now s gyro_stored e h k a (inl o) = absurd o
app_next-Moved base now s (counted n) e h k a (inl o) = absurd o

pub app_next-Inv : (base now : ℕ) (s : System) → Inv base s → Inv base (app_next now s)
app_next-Inv base now s v =
    let (seq, applied, app_ok, other, alone, same, calm) =
      app_next-Moved base now s s.app v.seq v.seen_le v.applied_le v.app_ok v.alone in
    record {
      seq = seq;
      applied = applied ∙ v.applied;
      seen_le = omega (arith, v.seen_le);
      applied_le = omega (arith, v.applied_le);
      app_ok = app_ok;
      other_ok = other v.other_ok;
      alone = alone;
      flpr_ok = FlprOk-frame base s (app_next now s) same calm s.flpr v.flpr_ok;
    }

-- The threads change places.
abbrev swapped : System → System
swapped s = record s { app = s.other; other = s.app }

swapped-Inv : (base : ℕ) (s : System) → Inv base s → Inv base (swapped s)
swapped-Inv base s v = record {
  seq = v.seq;
  applied = v.applied;
  seen_le = v.seen_le;
  applied_le = v.applied_le;
  app_ok = v.other_ok;
  other_ok = v.app_ok;
  alone = elim v.alone [ inl q ↦ inr q | inr q ↦ inl q ];
  flpr_ok =
      FlprOk-frame base s (swapped s) (refl, refl, refl, refl, refl)
        (λ q. inl ((q.1, q.0), refl, refl)) s.flpr v.flpr_ok;
}

pub other_begin-Inv :
    (base : ℕ) (s : System)
    → Inv base s
    → s.other ≡ resting
    → s.app ≡ resting
    → Inv base (record s { other = update_begin s.device })
other_begin-Inv base s v e e' =
    swapped-Inv base _ (begin-Inv base (swapped s) (swapped-Inv base s v) e e')

pub other_next-Inv : (base now : ℕ) (s : System) → Inv base s → Inv base (other_next now s)
other_next-Inv base now s v =
    swapped-Inv base _ (app_next-Inv base now (swapped s) (swapped-Inv base s v))
