-- ===== src/Log/Api.antt =====
-- src/imu/imu_log.c: boot, start, stop, erase, and the accessors.
use moamoa_caterpillar_firmw.Base.{
  ℕ, zero, suc, ◌+◌, ◌*◌, ◌%◌, Bool, true, false, not, ◌&&◌, none, some, ltb, leb, ◌==◌,
  if◌then◌else◌, u8, u32, sub32, get_le32,
}
use moamoa_caterpillar_firmw.Errno.{Status, ok, err, ebusy, enodev}
use moamoa_caterpillar_firmw.Flash.{Mem, FlashDevice, Read, got, failed}
use moamoa_caterpillar_firmw.Settings.Registry.{
  imu_odr_code, imu_content, imu_accel_fs, imu_gyro_fs,
}
use moamoa_caterpillar_firmw.Settings.Store.{Store, settings_get}
use moamoa_caterpillar_firmw.Log.Entry.{
  Entry, entry_magic, meta_magic, meta_layout, max_sessions, rec_capacity, dir_base, session_read,
  entry_write, dir_wipe_and_stamp,
}
use moamoa_caterpillar_firmw.Log.State.{Log, dir_refresh_current}
use moamoa_caterpillar_firmw.Log.Writer.{writer_run}

-- `imu_log_active`, `imu_log_detached`, `imu_log_bytes_stored`; the policy is always 1.
unfoldable pub imu_log_detached : Log → Bool
imu_log_detached l = l.active && l.session_detached

abbrev pub imu_log_policy : ℕ
imu_log_policy = 1

unfoldable pub imu_log_bytes_stored : Log → ℕ
imu_log_bytes_stored l =
    u32 ((if ltb rec_capacity l.cur_count then rec_capacity else l.cur_count) * 16)

unfoldable pub imu_log_mark_detached : Log → Log
imu_log_mark_detached l = record l { session_detached = true }

-- The entry that a session starts with. `memset` is not called: the compiler zeroes the rest.
unfoldable pub fresh_entry : ℕ → Store → Log → Entry
fresh_entry wall settings l = record {
  magic = entry_magic;
  seq = l.cur_seq;
  start_rec = l.cur_start;
  rec_count = 0;
  wall_start = wall;
  odr_code = u8 (settings_get settings imu_odr_code);
  content = u8 (settings_get settings imu_content);
  accel_fs = u8 (settings_get settings imu_accel_fs);
  gyro_fs = u8 (settings_get settings imu_gyro_fs);
  policy = 1;
  opened = 1;
  rsvd0 = 0;
  rsvd1 = 0;
  rsvd2 = 0;
}

-- The statics that a start sets before it writes the entry. `cur_seq - 1` wraps at 0.
unfoldable pub open_session : Log → Log
open_session l = record l {
  cur_seq = l.seq_next;
  seq_next = u32 (l.seq_next + 1);
  cur_slot = sub32 l.seq_next 1 % max_sessions;
  cur_start = l.total_abs;
  cur_count = 0;
  last_dir_refresh = 0;
  stage_tail = l.stage_head;
  log_dropped = 0;
}

-- What a start does with the result of the entry's write.
unfoldable pub opened_session : Status × Mem → Log → Status × Log
opened_session (err e, mem') l = (err e, record l { mem = mem' })
opened_session (ok, mem') l = (ok, record l { mem = mem'; active = true })

-- The test of the directory's stamp in `imu_log_init`.
unfoldable pub stamp_matches : ℕ → Read → Bool
stamp_matches fw_version (failed e) = false
stamp_matches fw_version (got b) =
    get_le32 b 0 == meta_magic && get_le32 b 4 == meta_layout && get_le32 b 8 == fw_version

-- A count that was never written.
unfoldable pub counted_entry : Entry → Entry
counted_entry e = if e.rec_count == 0xFFFFFFFF then record e { rec_count = 0 } else e

module _ (fl : FlashDevice) where
  -- A session that was open when power was lost is closed.
  unfoldable pub close_entry : ℕ → Entry → Log → Log
  close_entry i e l =
      if not (e.opened == 0)
      then record l { mem = (entry_write fl l.mem i (record e { opened = 0 })).1 }
      else l

  -- The counters that a session of the directory calls for.
  unfoldable pub recover_counters : Entry → Log → Log
  recover_counters e l =
      let end = u32 (e.start_rec + e.rec_count) in
      record l {
        total_abs = if ltb l.total_abs end then end else l.total_abs;
        seq_next = if leb l.seq_next e.seq then u32 (e.seq + 1) else l.seq_next;
      }

  -- One round of the rebuilding loop of `imu_log_init`.
  unfoldable pub recover_entry : ℕ → Entry → Log → Log
  unfolding close_entry recover_counters counted_entry
  recover_entry i e0 l = recover_counters (counted_entry e0) (close_entry i (counted_entry e0) l)

  unfoldable pub recover_slot : ℕ → Log → Log
  unfolding recover_entry
  recover_slot i l = elim (session_read fl l.mem i) [ none ↦ l | some e ↦ recover_entry i e l ]

  unfoldable pub recover_from : ℕ → ℕ → Log → Log
  recover_from zero i l = l
  recover_from (suc n) i l = recover_from n (i + 1) (recover_slot i l)

  unfoldable pub imu_log_init : ℕ → Log → Status × Log
  unfolding stamp_matches recover_from recover_slot
  imu_log_init fw_version l =
      if not fl.ready
      then (err enodev, l)
      else if not (stamp_matches fw_version (fl.read l.mem dir_base 32))
      then (ok, record l { mem = dir_wipe_and_stamp fl fw_version l.mem })
      else (ok, recover_from max_sessions 0 l)

  unfoldable pub imu_log_start : ℕ → Store → Log → Status × Log
  unfolding open_session fresh_entry opened_session
  imu_log_start wall settings l =
      if l.active
      then (err ebusy, l)
      else (let l1 = open_session l in
          opened_session (entry_write fl l1.mem l1.cur_slot (fresh_entry wall settings l1)) l1)

  -- What `imu_log_stop` does under the lock.
  unfoldable pub close_session : Log → Log
  close_session l =
      if l.active
      then dir_refresh_current fl true (record l { active = false; session_detached = false })
      else l

  -- `writer_flush` waits while the writer thread runs: `rounds` is how many batches it gets done
  -- in that time, and the flush ends early when nothing is staged.
  unfoldable pub imu_log_stop : ℕ → Log → Log
  unfolding close_session
  imu_log_stop rounds l = if not l.active then l else close_session (writer_run fl rounds l)

  unfoldable pub imu_log_erase : ℕ → ℕ → Log → Log
  unfolding imu_log_stop
  imu_log_erase fw_version rounds l =
      let l1 = imu_log_stop rounds l in
      record l1 {
        mem = dir_wipe_and_stamp fl fw_version l1.mem;
        total_abs = 0;
        seq_next = 1;
        cur_count = 0;
      }
