-- ===== src/App/Monitor/Losses.antt =====
-- What the reports of the monitor of src/app/app.c add up to.
use moamoa_caterpillar_firmw.Base.{
  ℕ, ◌+◌, ◌≤◌, ◌<◌, ◌≡◌, refl, ap, sym, ◌∙◌, subst, inl, inr, Bool-cases, List, [], ◌∷◌, ◌++◌, leb,
  arith,
}
use moamoa_caterpillar_firmw.Imu.Pump.{imu_pump_overrun}
use moamoa_caterpillar_firmw.App.Monitor.{
  Report, ring_overrun, Monitor, Tick, stamped, overrun_reports, backlog_reports, fault, warnings,
  monitor_round, monitor_rounds,
}

-- The samples that the reports say were lost in the ring.
abbrev pub lost_of : Report → ℕ
lost_of (ring_overrun n total) = n
lost_of r = 0

unfoldable pub lost : List (ℕ × Report) → ℕ
lost [] = 0
lost ((now, r) ∷ rs) = lost_of r + lost rs

lost-append : (xs ys : List (ℕ × Report)) → lost (xs ++ ys) ≡ lost xs + lost ys
unfolding lost
lost-append [] ys = omega arith
lost-append ((now, r) ∷ xs) ys = omega (arith, lost-append xs ys)

lost_backlog : (now : ℕ) (t : Tick) (m : Monitor) → lost (stamped now (backlog_reports t m)) ≡ 0
unfolding lost backlog_reports
lost_backlog now t m = ground arith

lost-fault : (now : ℕ) (t : Tick) (m : Monitor) → lost (stamped now (fault t m)) ≡ 0
unfolding lost fault
lost-fault now t m = ground arith

lost-warnings : (now : ℕ) (t : Tick) (m : Monitor) → lost (stamped now (warnings t m)) ≡ 0
unfolding warnings lost
lost-warnings now t m = elim (Bool-cases (leb (m.last_warn + 5000) t.now)) [
  | inl due ↦ rw due (lost-fault now t m)
  | inr early ↦ rw early refl
]

pub stamped-append :
    (now : ℕ) (xs ys : List Report) → stamped now (xs ++ ys) ≡ stamped now xs ++ stamped now ys
stamped-append now [] ys = refl
stamped-append now (x ∷ xs) ys = ap (λ t. (now, x) ∷ t) (stamped-append now xs ys)

-- The counter shows no less than a round before.
lost_overrun :
    (now : ℕ) (t : Tick) (m : Monitor)
    → m.last_overrun ≤ imu_pump_overrun t.device.sh
    → imu_pump_overrun t.device.sh < 4_294_967_296
    → m.last_overrun + lost (stamped now (overrun_reports t m)) ≡ imu_pump_overrun t.device.sh
unfolding lost overrun_reports
lost_overrun now t m h k = ground (arith, h, k)

lost_round :
    (now : ℕ) (t : Tick) (m : Monitor)
    → lost (stamped now (monitor_round t m).0) ≡ lost (stamped now (overrun_reports t m))
unfolding monitor_round
lost_round now t m =
    rw (stamped-append now (overrun_reports t m), stamped-append now (backlog_reports t m))
      (omega (
        arith,
        lost-append (stamped now (overrun_reports t m))
            (stamped now (backlog_reports t m) ++ stamped now (warnings t m)),
        lost-append (stamped now (backlog_reports t m)) (stamped now (warnings t m)),
        lost_backlog now t m,
        lost-warnings now t m,
      ))

-- What the counter of the sampler shows in the rounds is a uint32_t that never goes back: from `n` on,
-- it is neither wrapped round nor started again.
abbrev pub Rising : ℕ → List Tick → Type 0
Rising n [] = Unit {0}
Rising n (t ∷ ts) =
    (n ≤ imu_pump_overrun t.device.sh)
    × (imu_pump_overrun t.device.sh < 4_294_967_296)
    × Rising (imu_pump_overrun t.device.sh) ts

round_overrun :
    (t : Tick) (m : Monitor) → (monitor_round t m).1.last_overrun ≡ imu_pump_overrun t.device.sh
unfolding monitor_round
round_overrun t m = refl

-- What the counter of the sampler showed in the last round.
abbrev pub last_overrun_of : ℕ → List Tick → ℕ
last_overrun_of n [] = n
last_overrun_of n (t ∷ ts) = last_overrun_of (imu_pump_overrun t.device.sh) ts

-- Over any rounds of the monitor in which the sampler's counter does not go back, the losses that it
-- reports add up to just what the counter has gained since the round before the first: no loss is left
-- out and none is reported twice.
pub monitor_rounds-lost :
    (ts : List Tick) (m : Monitor)
    → Rising m.last_overrun ts
    → m.last_overrun + lost (monitor_rounds ts m).0 ≡ last_overrun_of m.last_overrun ts
unfolding monitor_rounds lost
monitor_rounds-lost [] m c = omega arith
monitor_rounds-lost (t ∷ ts) m c =
    let r = monitor_round t m in
    let e = round_overrun t m in
    let rest =
      monitor_rounds-lost ts r.1 (subst (λ n. Rising n ts) (sym e) c.2)
      ∙ ap (λ n. last_overrun_of n ts) e in
    omega (
      arith,
      lost_overrun t.now t m c.0 c.1,
      e,
      rest,
      lost_round t.now t m,
      lost-append (stamped t.now r.0) (monitor_rounds ts r.1).0,
    )
