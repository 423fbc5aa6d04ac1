-- ===== src/Device/Handshake/Applied.antt =====
-- What the reconfiguration handshake guarantees, however the two cores' accesses interleave.
use moamoa_caterpillar_firmw.Base.{
  ℕ, ◌+◌, ◌≤◌, ◌<◌, ◌≡◌, refl, sym, ◌∙◌, subst, Bool-cases, inl, inr, ◌==◌, u32, arith,
}
use moamoa_caterpillar_firmw.Errno.{Status}
use moamoa_caterpillar_firmw.Imu.Shared.{Shared}
use moamoa_caterpillar_firmw.Device.Session.{Device}
use moamoa_caterpillar_firmw.Device.Handshake.{
  config_of, UpdatePc, resting, decided, odr_stored, content_stored, accel_stored, gyro_stored,
  counted, ApplyPc, polling, pending, got_odr, got_content, got_accel, configured, status_stored,
  apply_begin, apply_step, System, flpr_next, SameControl, Step, app_begin, app_step, other_begin,
  other_step, flpr_poll, flpr_step, elsewhere, Reach, here, next,
}
use moamoa_caterpillar_firmw.Device.Handshake.Invariant.{
  Quiet, AppOk, FlprOk, Inv, FlprOk-frame, begin-Inv, app_next-Inv, other_begin-Inv, other_next-Inv,
}

-- What a step of the coprocessor has to leave, by where it stands.
abbrev Answered : ℕ → (ℕ → ℕ → Status) → System → ApplyPc → Type 0
Answered base spi s pc =
    let t = flpr_next spi (record s { flpr = pc }) in
    (t.device.sh.cfg_seq ≡ s.device.sh.cfg_seq)
    × (t.device.sh.cfg_applied ≡ u32 (base + t.applied_at))
    × (t.applied_at ≤ t.bumps)
    × (AppOk s.device.sh s.app → AppOk t.device.sh s.app)
    × (AppOk s.device.sh s.other → AppOk t.device.sh s.other)
    × FlprOk base t t.flpr

AppOk-keeps : (a b : Shared) (pc : UpdatePc) → b.cfg_seq ≡ a.cfg_seq → AppOk a pc → AppOk b pc
AppOk-keeps a b (counted n) e h = rw e h
AppOk-keeps a b resting e h = tt
AppOk-keeps a b (decided c) e h = tt
AppOk-keeps a b (odr_stored c) e h = tt
AppOk-keeps a b content_stored e h = tt
AppOk-keeps a b accel_stored e h = tt
AppOk-keeps a b gyro_stored e h = tt

flpr_next-Answered :
    (base : ℕ) (spi : ℕ → ℕ → Status) (s : System) (pc : ApplyPc)
    → s.device.sh.cfg_applied ≡ u32 (base + s.applied_at)
    → s.seen ≤ s.bumps
    → s.applied_at ≤ s.bumps
    → FlprOk base s pc
    → Answered base spi s pc
unfolding apply_step
flpr_next-Answered base spi s polling e h k f = (refl, e, k, λ a. a, λ a. a, f)
flpr_next-Answered base spi s (pending q) e h k f = (refl, e, k, λ a. a, λ a. a, (f, λ c. refl))
flpr_next-Answered base spi s (got_odr q o) e h k (f, g) =
    (refl, e, k, λ a. a, λ a. a, (f, λ c. (g c, refl)))
flpr_next-Answered base spi s (got_content q o c) e h k (f, g) =
    (refl, e, k, λ a. a, λ a. a, (f, λ cur. let (x, y) = g cur in (x, y, refl)))
flpr_next-Answered base spi s (got_accel q o c a) e h k (f, g) =
    (refl, e, k, λ w. w, λ w. w, (f, (λ cur. let (x, y, z) = g cur in cc), refl))
flpr_next-Answered base spi s (configured q ret) e h k (f, g, r) = (
  refl,
  e,
  k,
  AppOk-keeps s.device.sh (record s.device.sh { cfg_status = ret }) s.app refl,
  AppOk-keeps s.device.sh (record s.device.sh { cfg_status = ret }) s.other refl,
  (f, g, r),
)
flpr_next-Answered base spi s (status_stored q) e h k (f, g, r) = (
  refl,
  f,
  h,
  AppOk-keeps s.device.sh (record s.device.sh { cfg_applied = q }) s.app refl,
  AppOk-keeps s.device.sh (record s.device.sh { cfg_applied = q }) s.other refl,
  ((λ quiet now. g (quiet, now)), r),
)

flpr_next-Inv :
    (base : ℕ) (spi : ℕ → ℕ → Status) (s : System) → Inv base s → Inv base (flpr_next spi s)
flpr_next-Inv base spi s v =
    let (seq, applied, applied_le, app, other, flpr) =
      flpr_next-Answered base spi s s.flpr v.applied v.seen_le v.applied_le v.flpr_ok in
    record {
      seq = seq ∙ v.seq;
      applied = applied;
      seen_le = v.seen_le;
      applied_le = applied_le;
      app_ok = app v.app_ok;
      other_ok = other v.other_ok;
      alone = v.alone;
      flpr_ok = flpr;
    }

poll-FlprOk :
    (base : ℕ) (s : System)
    → Inv base s
    → s.flpr ≡ polling
    → FlprOk base
        (record s { flpr = apply_begin s.device.sh; seen = s.bumps })
        (apply_begin s.device.sh)
unfolding apply_begin
poll-FlprOk base s v e =
    let old : FlprOk base s polling = subst (FlprOk base s) e v.flpr_ok in
    elim (Bool-cases (s.device.sh.cfg_seq == s.device.sh.cfg_applied)) [
      | inl same ↦ rw same old
      | inr new ↦ rw new v.seq
    ]

poll-Inv :
    (base : ℕ) (s : System)
    → Inv base s
    → s.flpr ≡ polling
    → Inv base (record s { flpr = apply_begin s.device.sh; seen = s.bumps })
poll-Inv base s v e = record {
  seq = v.seq;
  applied = v.applied;
  seen_le = omega arith;
  applied_le = v.applied_le;
  app_ok = v.app_ok;
  other_ok = v.other_ok;
  alone = v.alone;
  flpr_ok = poll-FlprOk base s v e;
}

elsewhere-Inv :
    (base : ℕ) (s : System) (d : Device)
    → Inv base s
    → SameControl d.sh s.device.sh
    → Inv base (record s { device = d })
elsewhere-Inv base s d v c = record {
  seq = c.seq ∙ v.seq;
  applied = c.applied ∙ v.applied;
  seen_le = v.seen_le;
  applied_le = v.applied_le;
  app_ok = AppOk-keeps s.device.sh d.sh s.app c.seq v.app_ok;
  other_ok = AppOk-keeps s.device.sh d.sh s.other c.seq v.other_ok;
  alone = v.alone;
  flpr_ok =
      FlprOk-frame base s (record s { device = d }) (refl, refl, refl, refl, c.status)
        (λ q. inl (q, ground (arith, c), refl)) s.flpr v.flpr_ok;
}

Step-Inv : {base : ℕ} {s t : System} → Step ⊥ s t → Inv base s → Inv base t
Step-Inv {base} {s} (app_begin e (inl never)) v = absurd never
Step-Inv {base} {s} (app_begin e (inr out)) v = begin-Inv base s v e out
Step-Inv {base} {s} (app_step now) v = app_next-Inv base now s v
Step-Inv {base} {s} (other_begin e (inl never)) v = absurd never
Step-Inv {base} {s} (other_begin e (inr out)) v = other_begin-Inv base s v e out
Step-Inv {base} {s} (other_step now) v = other_next-Inv base now s v
Step-Inv {base} {s} (flpr_poll e) v = poll-Inv base s v e
Step-Inv {base} {s} (flpr_step spi) v = flpr_next-Inv base spi s v
Step-Inv {base} {s} (elsewhere d c) v = elsewhere-Inv base s d v c

Reach-Inv : {base : ℕ} {s t : System} → Reach ⊥ s t → Inv base s → Inv base t
Reach-Inv here v = v
Reach-Inv (next r st) v = Step-Inv st (Reach-Inv r v)

-- Both cores are outside of the handshake, the count is answered, and nothing was counted yet.
pub record Started (s : System) : Type 0 where
  pub app : s.app ≡ resting
  pub other : s.other ≡ resting
  pub flpr : s.flpr ≡ polling
  pub answered : s.device.sh.cfg_applied ≡ s.device.sh.cfg_seq
  pub small : s.device.sh.cfg_seq < 4_294_967_296
  pub driven : s.driven ≡ config_of s.device.sh
  pub outcome : s.device.sh.cfg_status ≡ s.outcome
  pub bumps : s.bumps ≡ 0
  pub seen : s.seen ≡ 0
  pub applied_at : s.applied_at ≡ 0

Started-Inv : (s : System) → Started s → Inv s.device.sh.cfg_seq s
Started-Inv s v = record {
  seq = omega (arith, v.small, v.bumps);
  applied = omega (arith, v.small, v.applied_at, v.answered);
  seen_le = omega (arith, v.seen);
  applied_le = omega (arith, v.applied_at);
  app_ok = subst (AppOk s.device.sh) (sym v.app) tt;
  other_ok = subst (AppOk s.device.sh) (sym v.other) tt;
  alone = inl (subst Quiet (sym v.app) tt);
  flpr_ok = subst (FlprOk s.device.sh.cfg_seq s) (sym v.flpr) (λ q e. v.driven, v.outcome);
}

-- After any interleaving of the two cores' accesses, of fewer than 2 ^ 32 updates, in which neither
-- thread of the application enters `session_imu_run_update` while the other is in it: if no update is
-- under way on either core and the coprocessor has answered the count, then the sensor was last
-- configured with just the configuration that stands in the block, whole and not a mixture of two,
-- and the status in the block is the result of that call. Nothing in the code keeps the second thread
-- out.
pub Reach-applied :
    (s t : System)
    → Started s
    → Reach ⊥ s t
    → t.bumps < 4_294_967_296
    → t.app ≡ resting
    → t.other ≡ resting
    → t.flpr ≡ polling
    → t.device.sh.cfg_applied ≡ t.device.sh.cfg_seq
    → (t.driven ≡ config_of t.device.sh) × (t.device.sh.cfg_status ≡ t.outcome)
Reach-applied s t v r small quiet quiet' away answered =
    let i = Reach-Inv r (Started-Inv s v) in
    let f : FlprOk s.device.sh.cfg_seq t polling = subst (FlprOk _ t) away i.flpr_ok in
    let e : t.applied_at ≡ t.bumps =
      omega (arith, i.seq, i.applied, i.applied_le, small, answered) in
    (f.0 (subst Quiet (sym quiet) tt, subst Quiet (sym quiet') tt) e, f.1)
