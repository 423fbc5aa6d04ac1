-- ===== src/Log/Entry.antt =====
-- src/imu/imu_log.c: the flash layout, and the directory's structs as they lie in memory.
use moamoa_caterpillar_firmw.Base.{
  ℕ, ◌+◌, ◌*◌, List, ◌∷◌, ◌++◌, Option, none, some, ◌==◌, if◌then◌else◌, get_or, replicate, le32,
  get_le32,
}
use moamoa_caterpillar_firmw.Errno.{Status}
use moamoa_caterpillar_firmw.Flash.{Mem, FlashDevice, Read, got, failed}

abbrev pub max_sessions : ℕ
max_sessions = 16

-- DIR_BASE = REGION_A_BASE + HDR_RESERVE
abbrev pub dir_base : ℕ
dir_base = 0xBA000

-- DIR_BYTES = (IMU_LOG_MAX_SESSIONS + 1) * ENTRY_SIZE
abbrev pub dir_bytes : ℕ
dir_bytes = 544

abbrev pub data_base : ℕ
data_base = 0xBA220

-- DATA_CAPACITY = REGION_A_SIZE - HDR_RESERVE - DIR_BYTES - TRAILER_RESERVE, and in records.
abbrev pub data_capacity : ℕ
data_capacity = 695_648

abbrev pub rec_capacity : ℕ
rec_capacity = 43_478

abbrev pub entry_magic : ℕ
entry_magic = 0x53455353

abbrev pub meta_magic : ℕ
meta_magic = 0x474F4C43

abbrev pub meta_layout : ℕ
meta_layout = 2

-- `struct dir_entry`: 32 bytes.
pub record Entry : Type 0 where
  pub magic : ℕ
  pub seq : ℕ
  pub start_rec : ℕ
  pub rec_count : ℕ
  pub wall_start : ℕ
  pub odr_code : ℕ
  pub content : ℕ
  pub accel_fs : ℕ
  pub gyro_fs : ℕ
  pub policy : ℕ
  pub opened : ℕ  -- the field `open`
  pub rsvd0 : ℕ
  pub rsvd1 : ℕ
  pub rsvd2 : ℕ

unfoldable pub entry_bytes : Entry → List ℕ
entry_bytes e =
    le32 e.magic
    ++ le32 e.seq
    ++ le32 e.start_rec
    ++ le32 e.rec_count
    ++ le32 e.wall_start
    ++ e.odr_code
      ∷ e.content
      ∷ e.accel_fs
      ∷ e.gyro_fs
      ∷ e.policy
      ∷ e.opened
      ∷ e.rsvd0
      ∷ e.rsvd1
      ∷ le32 e.rsvd2

unfoldable pub entry_of_bytes : List ℕ → Entry
entry_of_bytes b = record {
  magic = get_le32 b 0;
  seq = get_le32 b 4;
  start_rec = get_le32 b 8;
  rec_count = get_le32 b 12;
  wall_start = get_le32 b 16;
  odr_code = get_or b 20 0;
  content = get_or b 21 0;
  accel_fs = get_or b 22 0;
  gyro_fs = get_or b 23 0;
  policy = get_or b 24 0;
  opened = get_or b 25 0;
  rsvd0 = get_or b 26 0;
  rsvd1 = get_or b 27 0;
  rsvd2 = get_le32 b 28;
}

unfoldable pub entry_addr : ℕ → ℕ
entry_addr slot = dir_base + (slot + 1) * 32

-- What `entry_invalidate` writes: all ones but for the magic.
abbrev pub invalid_bytes : List ℕ
invalid_bytes = 0 ∷ 0 ∷ 0 ∷ 0 ∷ replicate 28 255

-- `struct dir_meta` as `dir_wipe_and_stamp` fills it.
unfoldable pub meta_bytes : ℕ → List ℕ
meta_bytes fw_version = le32 meta_magic ++ le32 meta_layout ++ le32 fw_version ++ replicate 20 255

module _ (fl : FlashDevice) where
  -- `entry_read(i, &e) == 0 && e.magic == ENTRY_MAGIC`
  unfoldable pub session_of_read : Read → Option Entry
  unfolding entry_of_bytes
  session_of_read (failed e) = none
  session_of_read (got b) =
      let e = entry_of_bytes b in if e.magic == entry_magic then some e else none

  unfoldable pub session_read : Mem → ℕ → Option Entry
  unfolding session_of_read entry_addr
  session_read mem slot = session_of_read (fl.read mem (entry_addr slot) 32)

  unfoldable pub entry_write : Mem → ℕ → Entry → Status × Mem
  unfolding entry_addr
  entry_write mem slot e = fl.write mem (entry_addr slot) (entry_bytes e)

  unfoldable pub entry_invalidate : Mem → ℕ → Mem
  unfolding entry_addr
  entry_invalidate mem slot = (fl.write mem (entry_addr slot) invalid_bytes).1

  unfoldable pub dir_wipe_and_stamp : ℕ → Mem → Mem
  unfolding meta_bytes
  dir_wipe_and_stamp fw_version mem =
      (fl.write (fl.write mem dir_base (replicate dir_bytes 255)).1 dir_base
        (meta_bytes fw_version)).1
