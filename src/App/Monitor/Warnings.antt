-- ===== src/App/Monitor/Warnings.antt =====
-- When the monitor of src/app/app.c reports a fault.
use moamoa_caterpillar_firmw.Base.{
  ℕ, ◌+◌, ◌≤◌, ◌<◌, ◌≡◌, ◌⊎◌, refl, ap, sym, ◌∙◌, subst, inl, inr, Bool, true, false, Bool-cases,
  List, [], ◌∷◌, ◌++◌, if◌then◌else◌, leb, arith,
}
use moamoa_caterpillar_firmw.Device.Session.{session_imu_demand}
use moamoa_caterpillar_firmw.App.Monitor.{
  Report, ring_overrun, write_backlog, Monitor, Tick, stamped, overrun_reports, backlog_reports,
  fault, warnings, monitor_round, monitor_rounds, is_alive,
}
use moamoa_caterpillar_firmw.App.Monitor.Losses.{stamped-append}

abbrev pub is_fault : Report → Bool
is_fault (ring_overrun n total) = false
is_fault (write_backlog n total) = false
is_fault r = true

-- The uptime of the last report of a fault, or `since`.
unfoldable pub last_fault : ℕ → List (ℕ × Report) → ℕ
last_fault since [] = since
last_fault since ((now, r) ∷ rs) = last_fault (if is_fault r then now else since) rs

-- Reports of faults are five seconds apart at least, the first one from `since`.
abbrev pub FaultsSpaced : ℕ → List (ℕ × Report) → Type 0
FaultsSpaced since [] = Unit {0}
FaultsSpaced since ((now, r) ∷ rs) =
    (is_fault r ≡ true → since + 5000 ≤ now) × FaultsSpaced (if is_fault r then now else since) rs

last_fault-append :
    (since : ℕ) (xs ys : List (ℕ × Report))
    → last_fault since (xs ++ ys) ≡ last_fault (last_fault since xs) ys
unfolding last_fault
last_fault-append since [] ys = refl
last_fault-append since ((now, r) ∷ xs) ys =
    last_fault-append (if is_fault r then now else since) xs ys

FaultsSpaced-append :
    (since : ℕ) (xs ys : List (ℕ × Report))
    → FaultsSpaced since xs
    → FaultsSpaced (last_fault since xs) ys
    → FaultsSpaced since (xs ++ ys)
unfolding last_fault
FaultsSpaced-append since [] ys hx hy = hy
FaultsSpaced-append since ((now, r) ∷ xs) ys hx hy =
    (hx.0, FaultsSpaced-append (if is_fault r then now else since) xs ys hx.1 hy)

-- What holds of a part of a round's reports.
abbrev Part : ℕ → ℕ → List (ℕ × Report) → Type 0
Part since last rs = FaultsSpaced since rs × (last_fault since rs ≡ last)

overrun-Part :
    (since : ℕ) (t : Tick) (m : Monitor) → Part since since (stamped t.now (overrun_reports t m))
unfolding last_fault overrun_reports
overrun-Part since t m = ground arith

backlog-Part :
    (since : ℕ) (t : Tick) (m : Monitor) → Part since since (stamped t.now (backlog_reports t m))
unfolding last_fault backlog_reports
backlog-Part since t m = ground arith

abbrev warned_at : ℕ → List Report → ℕ → ℕ
warned_at now ws old = elim ws [ [] ↦ old | w ∷ more ↦ now ]

fault-Part :
    (t : Tick) (m : Monitor)
    → m.last_warn + 5000 ≤ t.now
    → Part m.last_warn (warned_at t.now (fault t m) m.last_warn) (stamped t.now (fault t m))
unfolding last_fault fault
fault-Part t m h = ground arith

warnings-Part :
    (t : Tick) (m : Monitor)
    → Part m.last_warn (warned_at t.now (warnings t m) m.last_warn) (stamped t.now (warnings t m))
unfolding warnings last_fault
warnings-Part t m = elim (Bool-cases (leb (m.last_warn + 5000) t.now)) [
  | inl due ↦ rw due (fault-Part t m (ground (arith, due)))
  | inr early ↦ rw early (tt, refl)
]

Part-append :
    (a b c : ℕ) (xs ys : List (ℕ × Report)) → Part a b xs → Part b c ys → Part a c (xs ++ ys)
Part-append a b c xs ys (h, e) (k, f) = (
  FaultsSpaced-append a xs ys h (subst (λ n. FaultsSpaced n ys) (sym e) k),
  last_fault-append a xs ys ∙ ap (λ n. last_fault n ys) e ∙ f,
)

round-Part :
    (t : Tick) (m : Monitor)
    → let r = monitor_round t m in Part m.last_warn r.1.last_warn (stamped t.now r.0)
unfolding monitor_round
round-Part t m =
    rw (stamped-append t.now (overrun_reports t m), stamped-append t.now (backlog_reports t m))
      (Part-append m.last_warn m.last_warn _ _ _ (overrun-Part m.last_warn t m) (
        Part-append m.last_warn m.last_warn _ _ _ (backlog-Part m.last_warn t m)
          (warnings-Part t m)))

rounds-Part :
    (ts : List Tick) (m : Monitor)
    → let r = monitor_rounds ts m in Part m.last_warn r.1.last_warn r.0
unfolding monitor_rounds last_fault
rounds-Part [] m = (tt, refl)
rounds-Part (t ∷ ts) m =
    Part-append m.last_warn _ _ _ _ (round-Part t m) (rounds-Part ts (monitor_round t m).1)

-- The coprocessor does not run, its sensor is not up, or samples that somebody wants do not come.
abbrev pub Faulty : Tick → Monitor → Type 0
Faulty t m =
    (is_alive t.device ≡ false)
    ⊎ (t.device.sh.imu_ok ≡ false)
    ⊎ ((t.drained ≡ m.last_drained) × (session_imu_demand t.device ≡ true))

fault-reported :
    (t : Tick) (m : Monitor) → Faulty t m → warned_at t.now (fault t m) m.last_warn ≡ t.now
unfolding fault
fault-reported t m f = ground arith

warned_recent :
    (t : Tick) (m : Monitor)
    → Faulty t m
    → t.now < warned_at t.now (warnings t m) m.last_warn + 5000
unfolding warnings
warned_recent t m f = elim (Bool-cases (leb (m.last_warn + 5000) t.now)) [
  | inl due ↦ rw due (omega (arith, fault-reported t m f))
  | inr early ↦ rw early (ground (arith, early))
]

round-recent :
    (t : Tick) (m : Monitor) → Faulty t m → t.now < (monitor_round t m).1.last_warn + 5000
unfolding monitor_round
round-recent t m f = warned_recent t m f

-- Over any rounds of the monitor and one more: the reports of faults are five seconds apart at least,
-- so that a lasting fault does not flood the log; and if the last round finds a fault, then one was
-- reported within the last five seconds, that round included, unless the monitor started within them.
pub monitor_rounds-watches :
    (ts : List Tick) (t : Tick) (m : Monitor)
    → let before = monitor_rounds ts m in
      let reports = before.0 ++ stamped t.now (monitor_round t before.1).0 in
      FaultsSpaced m.last_warn reports
      × (Faulty t before.1 → t.now < last_fault m.last_warn reports + 5000)
monitor_rounds-watches ts t m =
    let before = monitor_rounds ts m in
    let p = Part-append m.last_warn _ _ before.0 _ (rounds-Part ts m) (round-Part t before.1) in
    (p.0, λ f. omega (arith, p.1, round-recent t before.1 f))
