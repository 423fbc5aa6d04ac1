-- ===== src/Dump/Sessions.antt =====
-- The dump of a log session: the thread of src/ble/ble_transport.c over `imu_log_read_session` of
-- src/imu/imu_log.c.
use moamoa_caterpillar_firmw.Base.{ℕ, ◌+◌, ◌*◌, ◌≤◌, ◌<◌, ◌≡◌, some, max}
use moamoa_caterpillar_firmw.Flash.{FlashDevice, Works}
use moamoa_caterpillar_firmw.Imu.Shared.{Sample}
use moamoa_caterpillar_firmw.Log.Entry.{Entry, max_sessions, session_read}
use moamoa_caterpillar_firmw.Log.State.{Log, ring_floor}
use moamoa_caterpillar_firmw.Log.Sessions.{live_count}
use moamoa_caterpillar_firmw.Log.Reading.{imu_log_read_session}
use moamoa_caterpillar_firmw.Log.Contents.{Holds, history_byte}
use moamoa_caterpillar_firmw.Log.ReadBack.{readable, FirstOf, imu_log_read_session-exact}
use moamoa_caterpillar_firmw.Dump.Thread.{Request, DumpEnv, serve}
use moamoa_caterpillar_firmw.Dump.Chunks.{Smooth, Complete, serve-Complete}

-- A dump of a session that a directory slot, the first of its number, holds, for a request of at least one byte that ends below
-- 2 ^ 32, while fewer than 2 ^ 28 records were ever written, the log does not change and nothing
-- disturbs the transfer: it finishes, and sends the bytes of the session's surviving records from the
-- offset on, as many as were asked for and are there, in consecutive chunks of which the last one alone
-- is marked.
pub serve-session :
    (fl : FlashDevice) (works : Works fl) (env : DumpEnv) (l : Log) (hist : ℕ → Sample) (i : ℕ)
    (e : Entry) (r : Request)
    → Smooth env
    → Holds l.mem l.total_abs hist
    → 16 * l.total_abs < 4_294_967_296
    → i < max_sessions
    → session_read fl l.mem i ≡ some e
    → e.seq ≡ r.session
    → FirstOf fl works l r.session i
    → e.start_rec + live_count l i e ≤ l.total_abs
    → 0 < r.len
    → r.off + r.len < 4_294_967_296
    → Complete
        (history_byte hist)
        (16 * max e.start_rec (ring_floor l.total_abs))
        (readable fl works l (record e { rec_count = live_count l i e }))
        r.off
        r.len
        (serve (imu_log_read_session fl l r.session) env r)
serve-session fl works env l hist i e r s h small lt found same first inside more fits =
    serve-Complete (imu_log_read_session fl l r.session) env (history_byte hist) _ _ r s
      (λ off want.
        imu_log_read_session-exact fl works l hist r.session i off want e h small lt found same
          first inside)
      more fits
