-- ===== src/App/Monitor.antt =====
-- src/app/app.c: `app_run`, the health monitor. A round is taken as one step: what it reads is read
-- at one time. The texts of its messages are their kinds with the numbers in them.
use moamoa_caterpillar_firmw.Base.{
  ℕ, ◌+◌, Bool, true, false, not, ◌&&◌, List, [], ◌∷◌, ◌++◌, if◌then◌else◌, ltb, leb, ◌==◌, sub32,
}
use moamoa_caterpillar_firmw.Imu.Shared.{imu_shared_magic}
use moamoa_caterpillar_firmw.Imu.Pump.{imu_pump_overrun}
use moamoa_caterpillar_firmw.Settings.Registry.{preview_hz}
use moamoa_caterpillar_firmw.Settings.Store.{settings_get}
use moamoa_caterpillar_firmw.Stream.{ble_stream_set_preview}
use moamoa_caterpillar_firmw.Device.Session.{Device, session_imu_demand, session_imu_run_update}
mod Losses
mod Warnings
mod Tests

-- The calls of `ble_msg`.
pub data Report : Type 0 where
  ring_overrun : ℕ → ℕ → Report
  write_backlog : ℕ → ℕ → Report
  flpr_not_running : Report
  imu_init_failed : ℕ → Report
  samples_stalled : ℕ → Report

-- The locals of `app_run`; `last_warn` is an uptime in milliseconds.
pub record Monitor : Type 0 where
  pub flpr_announced : Bool
  pub last_drained : ℕ
  pub last_overrun : ℕ
  pub last_wdrop : ℕ
  pub last_warn : ℕ

abbrev pub monitor_start : Monitor
monitor_start = record {
  flpr_announced = false;
  last_drained = 0;
  last_overrun = 0;
  last_wdrop = 0;
  last_warn = 0;
}

-- What a round finds: the uptime, `imu_pump_drained`, and the device.
pub record Tick : Type 0 where
  pub now : ℕ
  pub drained : ℕ
  pub device : Device

abbrev pub is_alive : Device → Bool
is_alive d = d.sh.magic == imu_shared_magic

-- The first round in which the coprocessor runs: the preview's rate and the sensor's configuration
-- are taken from the settings.
unfoldable pub announce : Tick → Monitor → Device
announce t m =
    let d = t.device in
    if is_alive d && not m.flpr_announced
    then (let hz = settings_get d.settings preview_hz in
        session_imu_run_update t.now (record d {
          stream = ble_stream_set_preview d.sh.cfg_odr d.log.active t.now hz d.stream;
        }))
    else d

unfoldable pub overrun_reports : Tick → Monitor → List Report
overrun_reports t m =
    let overrun = imu_pump_overrun t.device.sh in
    if not (overrun == m.last_overrun)
    then ring_overrun (sub32 overrun m.last_overrun) overrun ∷ []
    else []

unfoldable pub backlog_reports : Tick → Monitor → List Report
backlog_reports t m =
    let wdrop = t.device.log.log_dropped in
    if ltb m.last_wdrop wdrop then write_backlog (sub32 wdrop m.last_wdrop) wdrop ∷ [] else []

-- The first fault of the chain of tests, if there is one.
unfoldable pub fault : Tick → Monitor → List Report
fault t m =
    if not (is_alive t.device)
    then flpr_not_running ∷ []
    else (if not t.device.sh.imu_ok
        then imu_init_failed t.device.sh.whoami ∷ []
        else (if t.drained == m.last_drained && session_imu_demand t.device
            then samples_stalled t.drained ∷ []
            else []))

-- A fault is reported if the last report of one is five seconds ago.
unfoldable pub warnings : Tick → Monitor → List Report
unfolding fault
warnings t m = if leb (m.last_warn + 5000) t.now then fault t m else []

-- A round of the loop.
unfoldable pub monitor_round : Tick → Monitor → List Report × Monitor
unfolding overrun_reports backlog_reports warnings
monitor_round t m = (
  overrun_reports t m ++ (backlog_reports t m ++ warnings t m),
  record {
    flpr_announced = if is_alive t.device then true else m.flpr_announced;
    last_drained = t.drained;
    last_overrun = imu_pump_overrun t.device.sh;
    last_wdrop = t.device.log.log_dropped;
    last_warn = elim (warnings t m) [ [] ↦ m.last_warn | w ∷ ws ↦ t.now ];
  },
)

abbrev pub stamped : ℕ → List Report → List (ℕ × Report)
stamped now [] = []
stamped now (r ∷ rs) = (now, r) ∷ stamped now rs

-- The same with the device behind it.
unfoldable pub app_run_round : Tick → Monitor → Device × List Report × Monitor
app_run_round t m = let r = monitor_round t m in (announce t m, r.0, r.1)

-- Rounds of the loop, with the uptime of each report. Between two rounds the device may change.
unfoldable pub monitor_rounds : List Tick → Monitor → List (ℕ × Report) × Monitor
monitor_rounds [] m = ([], m)
monitor_rounds (t ∷ ts) m =
    let r = monitor_round t m in
    let rest = monitor_rounds ts r.1 in (stamped t.now r.0 ++ rest.0, rest.1)
