-- ===== src/App/Boot/Tests.antt =====
-- A boot on which some parts fail: src/app/app.c.
use moamoa_caterpillar_firmw.Base.{true, false, none, some, [], ◌∷◌}
use moamoa_caterpillar_firmw.Errno.{ok, err, eio}
use moamoa_caterpillar_firmw.Flash.Ideal.{ideal, checksum}
use moamoa_caterpillar_firmw.Drivers.Led.{boot}
use moamoa_caterpillar_firmw.Drivers.Voltage.Fixed.{Fixed, fixed_float}
use moamoa_caterpillar_firmw.Device.Scenario.{logging}
use moamoa_caterpillar_firmw.App.Boot.{BootEnv, Machine}
use moamoa_caterpillar_firmw.App.Boot.Idle.{Idle}

-- The PWM and the advertising fail; the pins of the rail and of the driver are high at first.
abbrev env : BootEnv
env = record {
  reset_cause = some 1;
  crc32 = checksum;
  fl = ideal;
  fw_version = 1;
  flpr_image = 1 ∷ 2 ∷ [];
  led_ready = true;
  led_configured = ok;
  adc_ready = true;
  adc_set_up = ok;
  i2c_ready = true;
  i2c_write = λ k. ok;
  rail_ready = true;
  rail_configured = ok;
  drv_ready = true;
  drv_configured = ok;
  pwm_ready = true;
  pwm_set = λ o. err eio;
  chip = record { uid = []; version = record { major = 2; minor = 1; patch = 0 } };
  bt_enable = ok;
  adv_start = err eio;
  stamp = λ line. line;
  boot_text = 98 ∷ [];
}

abbrev cold : Machine
cold = record {
  board = record {
    device = record logging { log = record logging.log { active = false } };
    queue = [];
    pwm = record { period_ns = 8_849_558; duty0 = 0; duty1 = 0 };
    led = record {
      pattern = boot;
      step_idx = 0;
      boot_periods_left = 0;
      enabled = true;
      pin = false;
      timer = none;
    };
    switches = record { rail_on = false; rail_pin = true; drv_awake = false; sleep_pin = true };
    tput_rx_bytes = 0;
  };
  digipot = record { cur_tap = none; transfers = 0; written = [] };
  vpr = record { sram = λ a. 0; secure = false; initpc = 0; cpurun = false };
  link = record {
    cur_conn = none;
    ad = record { name = []; mfg = [] };
    restart_scheduled = false;
    param_updates = [];
    phy_updates = [];
    connection = none;
    on_air = none;
  };
  messages = record { t2_ring = λ i. 0; t2_head = 0; msgq = λ i. []; msgq_head = 0; msgq_tail = 0 };
  reset_cause = 0;
}
