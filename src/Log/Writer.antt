-- ===== src/Log/Writer.antt =====
-- src/imu/imu_log.c: the staging ring and the writer thread.
use moamoa_caterpillar_firmw.Base.{
  ℕ, zero, suc, ◌+◌, ◌-◌, ◌*◌, ◌%◌, false, not, ◌&&◌, List, [], ◌∷◌, ◌++◌, leb, ◌==◌, if◌then◌else◌,
  min, u32, sub32, tabulate,
}
use moamoa_caterpillar_firmw.Flash.{FlashDevice}
use moamoa_caterpillar_firmw.Imu.Shared.{Sample, sample_bytes, update}
use moamoa_caterpillar_firmw.Log.Entry.{data_base, rec_capacity}
use moamoa_caterpillar_firmw.Log.State.{Log, dir_refresh_current, invalidate_consumed}

abbrev pub stage_n : ℕ
stage_n = 1536

abbrev pub batch_recs : ℕ
batch_recs = 256

abbrev pub dir_refresh_recs : ℕ
dir_refresh_recs = 512

-- The loop of `imu_log_append`.
unfoldable pub append_one : Log → Sample → Log
append_one l s =
    if leb stage_n (sub32 l.stage_head l.stage_tail)
    then record l { log_dropped = u32 (l.log_dropped + 1) }
    else record l {
      stage = update l.stage (l.stage_head % stage_n) s;
      stage_head = u32 (l.stage_head + 1);
    }

unfoldable pub append_all : Log → List Sample → Log
append_all l [] = l
append_all l (s ∷ ss) = append_all (append_one l s) ss

unfoldable pub imu_log_append : Log → List Sample → Log
unfolding append_all append_one
imu_log_append l ss = if not l.active then l else append_all l ss

-- The array `batch` as bytes.
unfoldable pub batch_bytes : List Sample → List ℕ
batch_bytes [] = []
batch_bytes (s ∷ ss) = sample_bytes s ++ batch_bytes ss

-- The records that one batch takes: no more than are staged, than fit `batch`, and than the flash
-- ring holds before its end.
unfoldable pub batch_size : Log → ℕ
batch_size l =
    min (min (sub32 l.stage_head l.stage_tail) batch_recs)
      (rec_capacity - l.total_abs % rec_capacity)

unfoldable pub batch_of : Log → ℕ → List Sample
batch_of l n = tabulate (λ i. l.stage (u32 (l.stage_tail + i) % stage_n)) 0 n

module _ (fl : FlashDevice) where
  -- The flash write and the counters. A failed write is only logged.
  unfoldable pub write_batch : ℕ → Log → Log
  unfolding batch_of
  write_batch n l = record l {
    mem =
        (fl.write l.mem (data_base + l.total_abs % rec_capacity * 16)
          (batch_bytes (batch_of l n))).1;
    stage_tail = u32 (l.stage_tail + n);
    total_abs = u32 (l.total_abs + n);
    cur_count = u32 (l.cur_count + n);
  }

  unfoldable pub refresh_when_due : Log → Log
  refresh_when_due l =
      if leb dir_refresh_recs (sub32 l.cur_count l.last_dir_refresh)
      then invalidate_consumed fl (dir_refresh_current fl false l)
      else l

  unfoldable pub writer_drain_batch : Log → Log
  unfolding batch_size write_batch refresh_when_due
  writer_drain_batch l =
      if sub32 l.stage_head l.stage_tail == 0
      then l
      else refresh_when_due (write_batch (batch_size l) l)

  -- The inner loop of `writer_thread`, for at most the given number of rounds.
  unfoldable pub writer_run : ℕ → Log → Log
  writer_run zero l = l
  writer_run (suc rounds) l =
      let rest = writer_run rounds (writer_drain_batch l) in
      if l.active && not (l.stage_head == l.stage_tail) then rest else l
