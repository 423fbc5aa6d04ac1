-- ===== src/Device/Handshake/Overlap.antt =====
-- A late store to `cfg_seq` by one thread in `session_imu_run_update` of src/app/session.c, behind two
-- whole updates of the other one, with the coprocessor's `apply_config` in between.
use moamoa_caterpillar_firmw.Base.{
  ℕ, zero, suc, ◌+◌, ◌<◌, ◌≡◌, refl, subst, true, false, inl, ◌==◌, u8, u32, arith,
}
use moamoa_caterpillar_firmw.Errno.{Status}
use moamoa_caterpillar_firmw.Imu.Shared.{Shared, imu_shared_magic}
use moamoa_caterpillar_firmw.Settings.Registry.{imu_content}
use moamoa_caterpillar_firmw.Settings.Store.{settings_get}
use moamoa_caterpillar_firmw.Device.Session.{Device, session_imu_demand, wanted_content}
use moamoa_caterpillar_firmw.Device.Handshake.{
  resting, decided, update_begin, update_step, polling, pending, apply_begin, apply_step, System,
  app_next, other_next, flpr_next, Step, app_begin, app_step, other_begin, other_step, flpr_poll,
  flpr_step, elsewhere, Reach, here, next,
}

-- Accesses of one thread, or of the coprocessor, without a pause.
abbrev app_runs : ℕ → ℕ → System → System
app_runs zero now s = s
app_runs (suc n) now s = app_runs n now (app_next now s)

abbrev other_runs : ℕ → ℕ → System → System
other_runs zero now s = s
other_runs (suc n) now s = other_runs n now (other_next now s)

abbrev flpr_runs : ℕ → (ℕ → ℕ → Status) → System → System
flpr_runs zero spi s = s
flpr_runs (suc n) spi s = flpr_runs n spi (flpr_next spi s)

abbrev Run : System → System → Type 0
Run = Reach (Unit {0})

app_runs-Run : (n : ℕ) (now : ℕ) (s t : System) → Run s t → Run s (app_runs n now t)
app_runs-Run zero now s t r = r
app_runs-Run (suc n) now s t r = app_runs-Run n now s _ (next r (app_step now))

other_runs-Run : (n : ℕ) (now : ℕ) (s t : System) → Run s t → Run s (other_runs n now t)
other_runs-Run zero now s t r = r
other_runs-Run (suc n) now s t r = other_runs-Run n now s _ (next r (other_step now))

flpr_runs-Run : (n : ℕ) (spi : ℕ → ℕ → Status) (s t : System) → Run s t → Run s (flpr_runs n spi t)
flpr_runs-Run zero spi s t r = r
flpr_runs-Run (suc n) spi s t r = flpr_runs-Run n spi s _ (next r (flpr_step spi))

begin-up :
    (d : Device) → d.sh.magic ≡ imu_shared_magic → update_begin d ≡ decided (wanted_content d)
unfolding update_begin
begin-up d up = rw up refl

-- The entries into the function, and the coprocessor's look at an unanswered count.
app_enters : System → System
app_enters s = record s { app = decided (wanted_content s.device) }

other_enters : System → System
other_enters s = record s { other = decided (wanted_content s.device) }

flpr_sees : System → System
flpr_sees s = record s { flpr = pending s.device.sh.cfg_seq; seen = s.bumps }

subscribed : System → System
subscribed s = record s { device = record s.device { stream_active = true } }

enters-Run :
    (s t : System)
    → t.device.sh.magic ≡ imu_shared_magic
    → t.app ≡ resting
    → Run s t
    → Run s (app_enters t)
unfolding app_enters
enters-Run s t up out r = next r (
    subst (λ pc. Step (Unit {0}) t (record t { app = pc })) (begin-up t.device up)
      (app_begin out (inl tt)))

other_enters-Run :
    (s t : System)
    → t.device.sh.magic ≡ imu_shared_magic
    → t.other ≡ resting
    → Run s t
    → Run s (other_enters t)
unfolding other_enters
other_enters-Run s t up out r = next r (
    subst (λ pc. Step (Unit {0}) t (record t { other = pc })) (begin-up t.device up)
      (other_begin out (inl tt)))

sees-pending :
    (sh : Shared) → (sh.cfg_seq == sh.cfg_applied) ≡ false → apply_begin sh ≡ pending sh.cfg_seq
unfolding apply_begin
sees-pending sh new = rw new refl

sees-Run :
    (s t : System)
    → (t.device.sh.cfg_seq == t.device.sh.cfg_applied) ≡ false
    → t.flpr ≡ polling
    → Run s t
    → Run s (flpr_sees t)
unfolding flpr_sees
sees-Run s t new away r = next r (
    subst (λ pc. Step (Unit {0}) t (record t { flpr = pc; seen = t.bumps }))
      (sees-pending t.device.sh new) (flpr_poll away))

-- One thread stands before its store of `cfg_seq`; the other one does an update, which the coprocessor
-- applies; the stream is subscribed, and the other one does the update for it; then comes the store.
module _ (now : ℕ) (spi : ℕ → ℕ → Status) where
  before_store : System → System
  before_store s = app_runs 5 now (app_enters s)

  one_applied : System → System
  one_applied s = flpr_runs 6 spi (flpr_sees (other_runs 6 now (other_enters (before_store s))))

  overtaken : System → System
  overtaken s = app_runs 1 now (other_runs 6 now (other_enters (subscribed (one_applied s))))

  overtaken-Run :
      (s : System)
      → s.device.sh.magic ≡ imu_shared_magic
      → s.app ≡ resting
      → s.other ≡ resting
      → s.flpr ≡ polling
      → s.device.sh.cfg_applied ≡ s.device.sh.cfg_seq
      → s.device.sh.cfg_seq < 4_294_967_296
      → Run s (overtaken s)
  unfolding overtaken one_applied before_store app_enters other_enters flpr_sees subscribed
      update_step apply_step
  overtaken-Run s up app other away answered small =
      let a = app_runs-Run 5 now s _ (enters-Run s s up app here) in
      let b = other_runs-Run 6 now s _ (other_enters-Run s (before_store s) up other a) in
      let new : (u32 (s.device.sh.cfg_seq + 1) == s.device.sh.cfg_applied) ≡ false =
        ground (arith, answered, small) in
      let c = flpr_runs-Run 6 spi s _ (sees-Run s _ new away b) in
      let d = next c (
        elsewhere (subscribed (one_applied s)).device (record {
          odr = refl;
          content = refl;
          accel_fs = refl;
          gyro_fs = refl;
          seq = refl;
          applied = refl;
          status = refl;
        })) in
      let e =
        other_runs-Run 6 now s _ (other_enters-Run s (subscribed (one_applied s)) up refl d) in
      app_runs-Run 1 now s _ e

  overtaken-state :
      (s : System)
      → session_imu_demand s.device ≡ false
      → let t = overtaken s in
        ((t.app ≡ resting) × (t.other ≡ resting) × (t.flpr ≡ polling))
        × (t.device.sh.cfg_applied ≡ t.device.sh.cfg_seq)
        × (session_imu_demand t.device ≡ true)
        × (t.device.sh.cfg_content ≡ u8 (settings_get s.device.settings imu_content))
        × (t.driven.content ≡ 0)
  unfolding overtaken one_applied before_store app_enters other_enters flpr_sees subscribed
      update_step apply_step wanted_content session_imu_demand
  overtaken-state s idle = ((refl, refl, refl), refl, refl, refl, rw idle refl)

-- With both threads in `session_imu_run_update` the handshake can end with a configuration that never
-- reached the sensor. From any state of rest in which the coprocessor runs and nobody wants data there
-- is a run of the two threads, of the coprocessor, and of a subscription, after which all three are at
-- rest and the count is answered, there is demand and the block holds the content of the settings, but
-- the sensor was last configured with no content at all: the late store of the one thread sets the
-- count back to the one answered before.
pub late_count-hides_update :
    (now : ℕ) (spi : ℕ → ℕ → Status) (s : System)
    → s.device.sh.magic ≡ imu_shared_magic
    → s.app ≡ resting
    → s.other ≡ resting
    → s.flpr ≡ polling
    → s.device.sh.cfg_applied ≡ s.device.sh.cfg_seq
    → s.device.sh.cfg_seq < 4_294_967_296
    → session_imu_demand s.device ≡ false
    → (t : System) × Reach (Unit {0}) s t
      × ((t.app ≡ resting) × (t.other ≡ resting) × (t.flpr ≡ polling))
      × (t.device.sh.cfg_applied ≡ t.device.sh.cfg_seq)
      × (session_imu_demand t.device ≡ true)
      × (t.device.sh.cfg_content ≡ u8 (settings_get s.device.settings imu_content))
      × (t.driven.content ≡ 0)
late_count-hides_update now spi s up app other away answered small idle =
    let r = overtaken-Run now spi s up app other away answered small in
    let (a, b, c, d, e) = overtaken-state now spi s idle in (overtaken now spi s, r, a, b, c, d, e)
