-- ===== src/App/Monitor/Tests.antt =====
-- Runs of the health monitor: src/app/app.c.
use moamoa_caterpillar_firmw.Base.{ℕ, ◌+◌, ◌<◌, ◌≡◌, refl, inr, [], ◌∷◌, ◌++◌, List, arith}
use moamoa_caterpillar_firmw.Imu.Pump.{imu_pump_overrun}
use moamoa_caterpillar_firmw.Device.Session.{Device, session_imu_demand}
use moamoa_caterpillar_firmw.Device.Scenario.{logging}
use moamoa_caterpillar_firmw.App.Monitor.{
  ring_overrun, write_backlog, flpr_not_running, samples_stalled, monitor_start, Tick,
  overrun_reports, backlog_reports, fault, warnings, stamped, monitor_round, monitor_rounds,
}
use moamoa_caterpillar_firmw.App.Monitor.Losses.{lost, last_overrun_of, monitor_rounds-lost}
use moamoa_caterpillar_firmw.App.Monitor.Warnings.{
  FaultsSpaced, last_fault, Faulty, monitor_rounds-watches,
}

-- The coprocessor is down, then it runs and has lost five samples, then three more, of which the log
-- lost two; and the samples stand still.
abbrev down : Device
down = record logging { sh = record logging.sh { magic = 0 } }

abbrev losing : ℕ → ℕ → Device
losing n w = record logging {
  sh = record logging.sh { overrun = n };
  log = record logging.log { log_dropped = w };
}

abbrev ticks : List Tick
ticks =
    record { now = 6000; drained = 0; device = down }
    ∷ record { now = 7000; drained = 10; device = losing 5 0 }
    ∷ record { now = 8000; drained = 20; device = losing 8 2 }
    ∷ []

abbrev still : Tick
still = record { now = 11_000; drained = 20; device = losing 8 2 }

the_reports :
    (monitor_rounds (ticks ++ still ∷ []) monitor_start).0
    ≡ (6000, flpr_not_running)
      ∷ (7000, ring_overrun 5 5)
      ∷ (8000, ring_overrun 3 8)
      ∷ (8000, write_backlog 2 2)
      ∷ (11_000, samples_stalled 20)
      ∷ []
unfolding monitor_rounds monitor_round overrun_reports backlog_reports warnings fault
    imu_pump_overrun session_imu_demand
the_reports = refl

monitor_rounds-lost_example :
    0 + lost (monitor_rounds ticks monitor_start).0 ≡ last_overrun_of 0 ticks
unfolding imu_pump_overrun
monitor_rounds-lost_example = monitor_rounds-lost ticks monitor_start (omega arith)

still-Faulty : Faulty still (monitor_rounds ticks monitor_start).1
unfolding monitor_rounds monitor_round session_imu_demand
still-Faulty = inr (inr (refl, refl))

monitor_rounds-watches_example :
    let before = monitor_rounds ticks monitor_start in
    let reports = before.0 ++ stamped 11_000 (monitor_round still before.1).0 in
    FaultsSpaced 0 reports × (Faulty still before.1 → 11_000 < last_fault 0 reports + 5000)
monitor_rounds-watches_example = monitor_rounds-watches ticks still monitor_start
