-- ===== src/Recorder.antt =====
-- The path of a record, over flpr/src/main.c, src/imu/imu_pump.c and src/imu/imu_log.c: the sampler's
-- accesses to the shared ring, the pump's, its calls of the log and of the stream, and the batches of
-- the log's writer, in any order while a session runs. An append and a batch are one step each.
use moamoa_caterpillar_firmw.Base.{
  ℕ, ◌+◌, ◌≡◌, List, [], Option, none, some, if◌then◌else◌, length, u32,
}
use moamoa_caterpillar_firmw.Flash.{FlashDevice}
use moamoa_caterpillar_firmw.Imu.Shared.{Sample}
use moamoa_caterpillar_firmw.Imu.Sampler.{between}
use moamoa_caterpillar_firmw.Imu.Pump.{ConsumerPc, asleep, pump_step}
use moamoa_caterpillar_firmw.Imu.Spsc.{
  System, sample_found, producer_moves, pump_wakes, pump_moves, handed,
}
use moamoa_caterpillar_firmw.Log.State.{Log}
use moamoa_caterpillar_firmw.Log.Writer.{imu_log_append, writer_drain_batch}
use moamoa_caterpillar_firmw.Stream.{Stream, stream_sink}
mod Runs
mod Recorded
mod Tests

-- What the pump's thread does: it is in its loop over the ring, or before the call of the log or of
-- the sink with the chunk that it has copied.
pub data Hand : Type 0 where
  looping : Hand
  to_log : List Sample → Hand
  to_sink : List Sample → Hand

pub record Recorder : Type 0 where
  pub ring : System
  pub hand : Hand
  pub drained_total : ℕ
  pub log : Log
  pub stream : Stream

abbrev pub hand_of : Option (List Sample) → Hand
hand_of none = looping
hand_of (some chunk) = to_log chunk

-- An access of the pump. With the store to `tail` it counts the chunk in `drained_total`.
unfoldable pub pump_drains : Recorder → Recorder
pump_drains t =
    let chunk = (pump_step t.ring.sh t.ring.consumer).2 in
    record t {
      ring = pump_moves t.ring;
      hand = hand_of chunk;
      drained_total = u32 (t.drained_total + length (handed chunk));
    }

unfoldable pub hand_to_log : List Sample → Recorder → Recorder
hand_to_log chunk t = record t { log = imu_log_append t.log chunk; hand = to_sink chunk }

-- `stream_sink` is NULL while nobody is subscribed.
unfoldable pub hand_to_sink : ℕ → List Sample → Recorder → Recorder
hand_to_sink now chunk t = record t {
  stream = if t.stream.sink_on then stream_sink now chunk t.stream else t.stream;
  hand = looping;
}

unfoldable pub writer_batch : FlashDevice → Recorder → Recorder
writer_batch fl t = record t { log = writer_drain_batch fl t.log }

-- What can happen next. The other threads may change the stream at any time.
pub data Step (fl : FlashDevice) (t : Recorder) : Recorder → Type 0 where
  sample :
      (s : Sample)
      → t.ring.producer ≡ between
      → Step fl t (record t { ring = sample_found s t.ring })
  produce : Step fl t (record t { ring = producer_moves t.ring })
  wake :
      t.hand ≡ looping
      → t.ring.consumer ≡ asleep
      → Step fl t (record t { ring = pump_wakes t.ring })
  drain : t.hand ≡ looping → Step fl t (pump_drains t)
  call_log : (chunk : List Sample) → t.hand ≡ to_log chunk → Step fl t (hand_to_log chunk t)
  call_sink :
      (now : ℕ) (chunk : List Sample)
      → t.hand ≡ to_sink chunk
      → Step fl t (hand_to_sink now chunk t)
  write : Step fl t (writer_batch fl t)
  elsewhere : (s : Stream) → Step fl t (record t { stream = s })

pub data Reach (fl : FlashDevice) (t : Recorder) : Recorder → Type 0 where
  here : Reach fl t t
  next : {u v : Recorder} → Reach fl t u → Step fl u v → Reach fl t v
