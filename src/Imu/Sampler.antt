-- ===== src/Imu/Sampler.antt =====
-- flpr/src/main.c: the sampler that owns the sensor and publishes records into the shared ring.
use moamoa_caterpillar_firmw.Base.{
  ℕ, ◌+◌, ◌%◌, Bool, true, false, leb, ◌==◌, if◌then◌else◌, u16, u32, sub32,
}
use moamoa_caterpillar_firmw.Errno.{Status, ok, err}
use moamoa_caterpillar_firmw.Flash.{Read, got, failed}
use moamoa_caterpillar_firmw.Imu.Shared.{
  Sample, Shared, imu_ring_n, imu_shared_magic, imu_odr_833hz, update,
}
use moamoa_caterpillar_firmw.Imu.Sensor.{Raw, Sensor, InitEnv, init, configure, raw_of_bytes}

abbrev pub cfg_poll_interval : ℕ
cfg_poll_interval = 32

-- Where the producer stands in the block that publishes one record: between records, before the
-- stores to the ring cell, or before the store to `head`.
pub data ProducerPc : Type 0 where
  between : ProducerPc
  store : ℕ → Sample → ProducerPc
  advance : ℕ → ProducerPc

-- The test for a full ring: the read of `tail` is the only access to a word of the consumer's.
unfoldable pub producer_check : Shared → Sample → Shared × ProducerPc
producer_check sh s =
    if leb imu_ring_n (sub32 sh.head sh.tail)
    then (record sh { overrun = u32 (sh.overrun + 1) }, between)
    else (sh, store sh.head s)

-- The stores behind it; the barrier keeps their order. `head & (IMU_RING_N - 1)` is `head % 2048`.
unfoldable pub producer_step : Shared → ProducerPc → Shared × ProducerPc
producer_step sh between = (sh, between)
producer_step sh (store head s) =
    (record sh { ring = update sh.ring (head % imu_ring_n) s }, advance head)
producer_step sh (advance head) = (record sh { head = u32 (head + 1) }, between)

-- The block run without a pause.
unfoldable pub publish : Shared → Sample → Shared
unfolding producer_check producer_step
publish sh s =
    let (sh1, pc1) = producer_check sh s in
    let (sh2, pc2) = producer_step sh1 pc1 in (producer_step sh2 pc2).0

-- The statics of `main`'s loop.
pub record Sampler : Type 0 where
  pub sampled : ℕ
  pub since_cfg_poll : ℕ

unfoldable pub sample_of : Raw → ℕ → Sample
sample_of d sampled = record {
  ax = d.ax;
  ay = d.ay;
  az = d.az;
  gx = d.gx;
  gy = d.gy;
  gz = d.gz;
  temp_raw = d.temp_raw;
  seq16 = u16 sampled;
}

module _ (spi : ℕ → ℕ → Status) where
  unfoldable pub apply_config : Shared → Shared
  apply_config sh = if sh.cfg_seq == sh.cfg_applied then sh else record sh {
    cfg_status = (configure spi sh.cfg_odr sh.cfg_content sh.cfg_accel_fs sh.cfg_gyro_fs).0;
    cfg_applied = sh.cfg_seq;
  }

  -- `main` up to the loop, with the firmware's version word; `false` if it parks for good.
  unfoldable pub boot : InitEnv → Sensor → ℕ → Shared → Shared × Bool
  boot env sensor version sh =
      let (ret0, sensor') = init env sensor in
      let ret : Status = elim ret0 [ ok ↦ (configure spi imu_odr_833hz 0 0 0).0 | err e ↦ err e ] in
      let up : Bool = elim ret [ ok ↦ true | err e ↦ false ] in
      (
        record sh {
          head = 0;
          tail = 0;
          overrun = 0;
          cfg_odr = imu_odr_833hz;
          cfg_content = 0;
          cfg_accel_fs = 0;
          cfg_gyro_fs = 0;
          cfg_seq = 1;
          cfg_applied = 1;
          cfg_status = ret;
          imu_ok = up;
          whoami = sensor'.last_whoami;
          flpr_version = version;
          magic = imu_shared_magic;
        },
        up,
      )

  -- One round of the loop: whether DRDY came within 100 ms, and what the burst read delivers.
  unfoldable pub loop_round : Bool → Read → Shared × Sampler → Shared × Sampler
  unfolding apply_config publish sample_of
  loop_round false raw (sh, l) = (apply_config sh, l)
  loop_round true raw (sh, l) =
      let due = leb cfg_poll_interval (l.since_cfg_poll + 1) in
      let sh1 = if due then apply_config sh else sh in
      let l1 = record l { since_cfg_poll = if due then 0 else l.since_cfg_poll + 1 } in
      elim raw [
        | failed e ↦ (sh1, l1)
        | got b ↦
            let n = u32 (l.sampled + 1) in
            (publish sh1 (sample_of (raw_of_bytes b) n), record l1 { sampled = n })
      ]
