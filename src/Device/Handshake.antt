-- ===== src/Device/Handshake.antt =====
-- The reconfiguration handshake of common/imu_shared.h, access by access: `session_imu_run_update` of
-- src/app/session.c on the application core, and `apply_config` of flpr/src/main.c on the
-- coprocessor.
use moamoa_caterpillar_firmw.Base.{
  ℕ, zero, suc, ◌+◌, ◌≡◌, ◌⊎◌, not, Option, none, some, ◌==◌, if◌then◌else◌, u8, u32,
}
use moamoa_caterpillar_firmw.Errno.{Status}
use moamoa_caterpillar_firmw.Imu.Shared.{Shared, imu_shared_magic}
use moamoa_caterpillar_firmw.Imu.Sensor.{configure}
use moamoa_caterpillar_firmw.Settings.Registry.{imu_odr_code, imu_accel_fs, imu_gyro_fs}
use moamoa_caterpillar_firmw.Settings.Store.{settings_get}
use moamoa_caterpillar_firmw.Stream.{update_decim}
use moamoa_caterpillar_firmw.Device.Session.{Device, wanted_content}
mod Invariant
mod Applied
mod Overlap
mod Race
mod Tests

-- The arguments of `drv_asm330lhh_configure`, and the fields of the block that they are read from.
pub record Config : Type 0 where
  pub odr : ℕ
  pub content : ℕ
  pub accel_fs : ℕ
  pub gyro_fs : ℕ

abbrev pub config_of : Shared → Config
config_of sh = record {
  odr = sh.cfg_odr;
  content = sh.cfg_content;
  accel_fs = sh.cfg_accel_fs;
  gyro_fs = sh.cfg_gyro_fs;
}

-- Where a thread stands in `session_imu_run_update`: outside, with its local `content` before the
-- store of the rate, behind each store, and with the value that `cfg_seq` will get.
pub data UpdatePc : Type 0 where
  resting : UpdatePc
  decided : ℕ → UpdatePc
  odr_stored : ℕ → UpdatePc
  content_stored : UpdatePc
  accel_stored : UpdatePc
  gyro_stored : UpdatePc
  counted : ℕ → UpdatePc

-- The test of the block and the decision on `content`.
unfoldable pub update_begin : Device → UpdatePc
update_begin d =
    if not (d.sh.magic == imu_shared_magic) then resting else decided (wanted_content d)

unfoldable pub update_step : ℕ → Device → UpdatePc → Device × UpdatePc
update_step now d resting = (d, resting)
update_step now d (decided content) = (
  record d { sh = record d.sh { cfg_odr = u8 (settings_get d.settings imu_odr_code) } },
  odr_stored content,
)
update_step now d (odr_stored content) =
    (record d { sh = record d.sh { cfg_content = content } }, content_stored)
update_step now d content_stored = (
  record d { sh = record d.sh { cfg_accel_fs = u8 (settings_get d.settings imu_accel_fs) } },
  accel_stored,
)
update_step now d accel_stored = (
  record d { sh = record d.sh { cfg_gyro_fs = u8 (settings_get d.settings imu_gyro_fs) } },
  gyro_stored,
)
update_step now d gyro_stored = (d, counted (u32 (d.sh.cfg_seq + 1)))
update_step now d (counted n) = (
  record d {
    sh = record d.sh { cfg_seq = n };
    stream = update_decim d.sh.cfg_odr d.log.active now d.stream;
  },
  resting,
)

-- Steps without a pause.
unfoldable pub update_steps : ℕ → ℕ → Device → UpdatePc → Device × UpdatePc
update_steps zero now d pc = (d, pc)
update_steps (suc n) now d pc = let r = update_step now d pc in update_steps n now r.0 r.1

-- Where the coprocessor stands in `apply_config`: outside, and with the local `seq`, behind the read
-- of each argument, behind the call, and behind the store of its result.
pub data ApplyPc : Type 0 where
  polling : ApplyPc
  pending : ℕ → ApplyPc
  got_odr : ℕ → ℕ → ApplyPc
  got_content : ℕ → ℕ → ℕ → ApplyPc
  got_accel : ℕ → ℕ → ℕ → ℕ → ApplyPc
  configured : ℕ → Status → ApplyPc
  status_stored : ℕ → ApplyPc

-- The read of `cfg_seq` and its test; no other core stores to `cfg_applied`.
unfoldable pub apply_begin : Shared → ApplyPc
apply_begin sh = if sh.cfg_seq == sh.cfg_applied then polling else pending sh.cfg_seq

-- The next access, and what `drv_asm330lhh_configure` was called with in it.
unfoldable pub apply_step : (ℕ → ℕ → Status) → Shared → ApplyPc → Shared × ApplyPc × Option Config
apply_step spi sh polling = (sh, polling, none)
apply_step spi sh (pending q) = (sh, got_odr q sh.cfg_odr, none)
apply_step spi sh (got_odr q odr) = (sh, got_content q odr sh.cfg_content, none)
apply_step spi sh (got_content q odr content) = (sh, got_accel q odr content sh.cfg_accel_fs, none)
apply_step spi sh (got_accel q odr content accel_fs) = (
  sh,
  configured q (configure spi odr content accel_fs sh.cfg_gyro_fs).0,
  some (record { odr = odr; content = content; accel_fs = accel_fs; gyro_fs = sh.cfg_gyro_fs }),
)
apply_step spi sh (configured q ret) = (record sh { cfg_status = ret }, status_stored q, none)
apply_step spi sh (status_stored q) = (record sh { cfg_applied = q }, polling, none)

-- Both cores, with the two threads that call `session_imu_run_update`, that of the commands and the
-- Bluetooth thread, and what an observer keeps: the last call of `drv_asm330lhh_configure` and its result,
-- how often `cfg_seq` was stored, and how often when the coprocessor last read it and when it last
-- stored `cfg_applied`.
pub record System : Type 0 where
  pub device : Device
  pub app : UpdatePc
  pub other : UpdatePc
  pub flpr : ApplyPc
  pub driven : Config
  pub outcome : Status
  pub bumps : ℕ
  pub seen : ℕ
  pub applied_at : ℕ

abbrev pub bump_of : UpdatePc → ℕ
bump_of (counted n) = 1
bump_of _ = 0

abbrev pub app_next : ℕ → System → System
app_next now s =
    let r = update_step now s.device s.app in
    record s { device = r.0; app = r.1; bumps = s.bumps + bump_of s.app }

abbrev pub other_next : ℕ → System → System
other_next now s =
    let r = update_step now s.device s.other in
    record s { device = r.0; other = r.1; bumps = s.bumps + bump_of s.other }

abbrev pub outcome_of : ApplyPc → Status → Status
outcome_of (configured q ret) o = ret
outcome_of _ o = o

abbrev pub applied_of : ApplyPc → ℕ → ℕ → ℕ
applied_of (status_stored q) seen old = seen
applied_of _ seen old = old

abbrev pub driven_of : Option Config → Config → Config
driven_of none c = c
driven_of (some c) old = c

abbrev pub flpr_next : (ℕ → ℕ → Status) → System → System
flpr_next spi s =
    let r = apply_step spi s.device.sh s.flpr in
    record s {
      device = record s.device { sh = r.0 };
      flpr = r.1;
      driven = driven_of r.2 s.driven;
      outcome = outcome_of r.1 s.outcome;
      applied_at = applied_of s.flpr s.seen s.applied_at;
    }

-- Two states of the block with the same configuration, count and answer.
pub record SameControl (a b : Shared) : Type 0 where
  pub odr : a.cfg_odr ≡ b.cfg_odr
  pub content : a.cfg_content ≡ b.cfg_content
  pub accel_fs : a.cfg_accel_fs ≡ b.cfg_accel_fs
  pub gyro_fs : a.cfg_gyro_fs ≡ b.cfg_gyro_fs
  pub seq : a.cfg_seq ≡ b.cfg_seq
  pub applied : a.cfg_applied ≡ b.cfg_applied
  pub status : a.cfg_status ≡ b.cfg_status

-- `Overlap` says whether a thread may enter `session_imu_run_update` while the other one is in it:
-- the code has no lock that would keep it out.
module _ (Overlap : Type 0) where
  -- One access of a thread; or anything else that happens to the device, the samples in the ring
  -- included.
  pub data Step (s : System) : System → Type 0 where
    app_begin :
        s.app ≡ resting
        → Overlap ⊎ (s.other ≡ resting)
        → Step s (record s { app = update_begin s.device })
    app_step : (now : ℕ) → Step s (app_next now s)
    other_begin :
        s.other ≡ resting
        → Overlap ⊎ (s.app ≡ resting)
        → Step s (record s { other = update_begin s.device })
    other_step : (now : ℕ) → Step s (other_next now s)
    flpr_poll :
        s.flpr ≡ polling → Step s (record s { flpr = apply_begin s.device.sh; seen = s.bumps })
    flpr_step : (spi : ℕ → ℕ → Status) → Step s (flpr_next spi s)
    elsewhere : (d : Device) → SameControl d.sh s.device.sh → Step s (record s { device = d })

  pub data Reach (s : System) : System → Type 0 where
    here : Reach s s
    next : {t u : System} → Reach s t → Step t u → Reach s u
