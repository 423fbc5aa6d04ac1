-- ===== src/Device/Scenario.antt =====
-- A state of the device that the runs start from: src/app/session.c.
use moamoa_caterpillar_firmw.Base.{refl, true, false, none, [], u8}
use moamoa_caterpillar_firmw.Errno.{ok}
use moamoa_caterpillar_firmw.Flash.Ideal.{ideal, checksum}
use moamoa_caterpillar_firmw.Imu.Shared.{zero_sample, imu_shared_magic}
use moamoa_caterpillar_firmw.Settings.Registry.{imu_content}
use moamoa_caterpillar_firmw.Settings.Store.{Store, settings_get, settings_store_init}
use moamoa_caterpillar_firmw.Settings.Ranges.{IsValid, settings_store_init-IsValid}
use moamoa_caterpillar_firmw.Log.Scenario.{started}
use moamoa_caterpillar_firmw.Device.Session.{Device, wanted_content, session_imu_demand}
use moamoa_caterpillar_firmw.Device.Arbiter.{Arbitrated}

abbrev pub booted : Store
booted =
    settings_store_init checksum ideal (λ x. 255)
      (record {
        rec = record { magic = 0; generation = 0; values = []; crc = 0 };
        loaded = false;
        pending = false;
      })

pub booted-IsValid : IsValid booted
booted-IsValid = settings_store_init-IsValid checksum ideal (λ x. 255) _

-- A log session runs and nobody is subscribed.
abbrev pub logging : Device
logging = record {
  log = started;
  sh = record {
    magic = imu_shared_magic;
    flpr_version = 1;
    imu_ok = true;
    whoami = 0x6B;
    cfg_seq = 1;
    cfg_odr = 7;
    cfg_content = u8 (settings_get booted imu_content);
    cfg_accel_fs = 0;
    cfg_gyro_fs = 0;
    cfg_applied = 1;
    cfg_status = ok;
    head = 0;
    tail = 0;
    overrun = 0;
    ring = λ i. zero_sample;
  };
  stream = record {
    decim = 1;
    preview_hz = 0;
    adapt = 0;
    calm = 0;
    calm_need = 5;
    last_dropped = 0;
    win_start = 0;
    last_probe = none;
    sfifo = λ i. zero_sample;
    sfifo_head = 0;
    sfifo_tail = 0;
    stream_max = 14;
    sample_ctr = 0;
    dropped = 0;
    sfifo_ts = 0;
    sink_on = false;
  };
  settings = booted;
  dump = record { session = 0; off = 0; len = 0; aborting = false; signalled = false };
  wall_epoch_at_boot = 0;
  stream_active = false;
  conn_params = [];
}

pub logging-Arbitrated : Arbitrated logging
unfolding wanted_content session_imu_demand
logging-Arbitrated = refl
