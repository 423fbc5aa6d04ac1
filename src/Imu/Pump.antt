-- ===== src/Imu/Pump.antt =====
-- src/imu/imu_pump.c: the consumer of the shared ring.
use moamoa_caterpillar_firmw.Base.{
  ℕ, ◌+◌, ◌%◌, not, ◌||◌, List, [], ◌∷◌, ◌++◌, ltb, ◌==◌, if◌then◌else◌, length, min, u32, sub32,
  Option, none, some,
}
use moamoa_caterpillar_firmw.Imu.Shared.{Sample, Shared, imu_ring_n, imu_shared_magic}

abbrev pub pump_chunk : ℕ
pump_chunk = 64

-- `imu_pump_overrun`
unfoldable pub imu_pump_overrun : Shared → ℕ
imu_pump_overrun sh = if sh.magic == imu_shared_magic then sh.overrun else 0

-- Where the pump stands: asleep, at the loop test with its copies of `head` and `tail`, or copying
-- `n` records from `tail` on, of which the chunk holds the first ones.
pub data ConsumerPc : Type 0 where
  asleep : ConsumerPc
  testing : ℕ → ℕ → ConsumerPc
  copying : ℕ → ℕ → ℕ → List Sample → ConsumerPc

-- A wake-up: the test of the block, and the reads of the counters.
unfoldable pub pump_wake : Shared → ConsumerPc
pump_wake sh =
    if not (sh.magic == imu_shared_magic) || not sh.imu_ok then asleep else testing sh.head sh.tail

-- One access: the loop test, the copy of one record, or the store to `tail`, with the chunk that
-- is then handed on to the log and the stream.
unfoldable pub pump_step : Shared → ConsumerPc → Shared × ConsumerPc × Option (List Sample)
pump_step sh asleep = (sh, asleep, none)
pump_step sh (testing head tail) =
    if tail == head
    then (sh, asleep, none)
    else (sh, copying head tail (min (sub32 head tail) pump_chunk) [], none)
pump_step sh (copying head tail n chunk) =
    if ltb (length chunk) n
    then (
      sh,
      copying head tail n (chunk ++ sh.ring (u32 (tail + length chunk) % imu_ring_n) ∷ []),
      none,
    )
    else (record sh { tail = u32 (tail + n) }, testing head (u32 (tail + n)), some chunk)
