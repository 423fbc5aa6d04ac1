-- ===== src/Device/Handshake/Tests.antt =====
-- Runs of the reconfiguration handshake of src/app/session.c and flpr/src/main.c.
use moamoa_caterpillar_firmw.Base.{ℕ, zero, suc, ◌≡◌, inr, u8, refl, true, false, arith}
use moamoa_caterpillar_firmw.Errno.{Status, ok}
use moamoa_caterpillar_firmw.Device.Session.{Device, session_imu_demand, session_set_stream_active}
use moamoa_caterpillar_firmw.Device.Scenario.{logging}
use moamoa_caterpillar_firmw.Device.Handshake.{
  config_of, resting, update_begin, update_step, update_steps, polling, apply_begin, apply_step,
  System, Reach, here, next, app_begin, app_step, flpr_poll, flpr_step,
}
use moamoa_caterpillar_firmw.Device.Handshake.Applied.{Started, Reach-applied}
use moamoa_caterpillar_firmw.Device.Handshake.Race.{late_update-powers_down}
use moamoa_caterpillar_firmw.Device.Handshake.Overlap.{late_count-hides_update}
use moamoa_caterpillar_firmw.Settings.Registry.{imu_content}
use moamoa_caterpillar_firmw.Settings.Store.{settings_get}

abbrev all_ok : ℕ → ℕ → Status
all_ok reg val = ok

abbrev rested : System
rested = record {
  device = logging;
  app = resting;
  other = resting;
  flpr = polling;
  driven = config_of logging.sh;
  outcome = ok;
  bumps = 0;
  seen = 0;
  applied_at = 0;
}

rested-Started : Started rested
rested-Started = record {
  app = refl;
  other = refl;
  flpr = refl;
  answered = refl;
  small = omega arith;
  driven = refl;
  outcome = refl;
  bumps = refl;
  seen = refl;
  applied_at = refl;
}

record Run : Type 0 where
  last : System
  reach : Reach ⊥ rested last

abbrev by_app : ℕ → Run → Run
by_app zero r = r
by_app (suc n) r = by_app n (record { last = _; reach = next r.reach (app_step 100) })

abbrev by_flpr : ℕ → Run → Run
by_flpr zero r = r
by_flpr (suc n) r = by_flpr n (record { last = _; reach = next r.reach (flpr_step all_ok) })

abbrev poll : (r : Run) → r.last.flpr ≡ polling → Run
poll r e = record { last = _; reach = next r.reach (flpr_poll e) }

-- The coprocessor looks in the middle of an update and behind it.
half_way : Run
half_way = by_app 3 (record { last = _; reach = next here (app_begin refl (inr refl)) })

half_way-polling : half_way.last.flpr ≡ polling
unfolding half_way update_begin update_step
half_way-polling = refl

looked : Run
looked = by_app 4 (poll half_way half_way-polling)

looked-polling : looked.last.flpr ≡ polling
unfolding looked half_way update_begin update_step apply_begin
looked-polling = refl

answered : Run
answered = by_flpr 6 (poll looked looked-polling)

Reach-applied_example :
    (answered.last.driven ≡ config_of answered.last.device.sh)
    × (answered.last.device.sh.cfg_status ≡ answered.last.outcome)
unfolding answered looked half_way update_begin update_step apply_begin apply_step
Reach-applied_example =
    Reach-applied rested answered.last rested-Started answered.reach (omega arith) refl refl refl
      refl

-- Nobody logs and nobody is subscribed.
abbrev idle : Device
idle = record logging { log = record logging.log { active = false } }

late_update-powers_down_example :
    let r = update_steps 6 9 (session_set_stream_active 8 true idle) (update_begin idle) in
    (session_imu_demand r.0 ≡ true) × (r.0.sh.cfg_content ≡ 0) × (r.1 ≡ resting)
unfolding session_imu_demand
late_update-powers_down_example = late_update-powers_down 8 9 idle refl refl

abbrev idle_rested : System
idle_rested = record rested { device = idle }

late_count-hides_update_example :
    (t : System) × Reach (Unit {0}) idle_rested t
    × ((t.app ≡ resting) × (t.other ≡ resting) × (t.flpr ≡ polling))
    × (t.device.sh.cfg_applied ≡ t.device.sh.cfg_seq)
    × (session_imu_demand t.device ≡ true)
    × (t.device.sh.cfg_content ≡ u8 (settings_get idle.settings imu_content))
    × (t.driven.content ≡ 0)
unfolding session_imu_demand
late_count-hides_update_example =
    late_count-hides_update 5 all_ok idle_rested refl refl refl refl refl (omega arith) refl
