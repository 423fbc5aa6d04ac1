-- ===== src/Settings/Store.antt =====
-- src/settings/settings_store.c: the statics, the two flash slots, and each function.
use moamoa_caterpillar_firmw.Base.{
  ℕ, ◌+◌, ◌*◌, ◌%◌, Bool, true, false, not, ◌&&◌, ◌||◌, List, [], ◌∷◌, ◌++◌, Option, none, some,
  ltb, leb, ◌==◌, if◌then◌else◌, get_or, set, drop, u32, clamp, le32, words16, get_le32,
  get_words16,
}
use moamoa_caterpillar_firmw.Errno.{Status}
use moamoa_caterpillar_firmw.Flash.{Mem, FlashDevice, Read, got, failed}
use moamoa_caterpillar_firmw.Settings.Registry.{SettingMeta, table, meta_for}

abbrev pub store_magic : ℕ
store_magic = 0x54455343

abbrev pub store_base : ℕ
store_base = 0x164000

-- SLOT_ADDR(i)
abbrev pub slot_addr : ℕ → ℕ
slot_addr i = store_base + i * 256

-- `struct store_rec`: 32 bytes, of which the crc is the last four.
pub record StoreRec : Type 0 where
  pub magic : ℕ
  pub generation : ℕ
  pub values : List ℕ  -- values[SETTINGS_MAX_ID + 1], by id
  pub crc : ℕ

-- The bytes before the crc, and the whole struct, as they lie in memory.
abbrev pub crc_bytes : StoreRec → List ℕ
crc_bytes r = le32 r.magic ++ le32 r.generation ++ words16 r.values

abbrev pub rec_bytes : StoreRec → List ℕ
rec_bytes r = (le32 r.magic ++ le32 r.generation ++ words16 r.values) ++ le32 r.crc

abbrev pub rec_of_bytes : List ℕ → StoreRec
rec_of_bytes bs = record {
  magic = get_le32 bs 0;
  generation = get_le32 bs 4;
  values = get_words16 10 (drop 8 bs);
  crc = get_le32 (drop 28 bs) 0;
}

-- The statics `rec` and `loaded`, and whether `persist_work` is scheduled.
pub record Store : Type 0 where
  pub rec : StoreRec
  pub loaded : Bool
  pub pending : Bool

-- `load_defaults`: the memset, the loop over the table, magic and generation. The crc is left.
unfoldable pub set_defaults : List SettingMeta → List ℕ → List ℕ
set_defaults [] vs = vs
set_defaults (m ∷ ms) vs = set_defaults ms (set vs m.id m.def)

unfoldable pub load_defaults : StoreRec → StoreRec
unfolding set_defaults
load_defaults r = record {
  magic = store_magic;
  generation = 0;
  values = set_defaults table (0 ∷ 0 ∷ 0 ∷ 0 ∷ 0 ∷ 0 ∷ 0 ∷ 0 ∷ 0 ∷ 0 ∷ []);
  crc = r.crc;
}

-- The clamping loop of `settings_store_init`: a value out of its range becomes the default.
unfoldable pub sanitize_one : SettingMeta → List ℕ → List ℕ
sanitize_one m vs =
    let v = get_or vs m.id 0 in if ltb v m.min || ltb m.max v then set vs m.id m.def else vs

unfoldable pub sanitize : List SettingMeta → List ℕ → List ℕ
sanitize [] vs = vs
sanitize (m ∷ ms) vs = sanitize ms (sanitize_one m vs)

-- `settings_max`, `settings_get`
unfoldable pub settings_max : ℕ → ℕ
settings_max id = elim (meta_for id) [ none ↦ 0 | some m ↦ m.max ]

unfoldable pub settings_get : Store → ℕ → ℕ
settings_get s id = elim (meta_for id) [
  | none ↦ 0
  | some m ↦ if not s.loaded then m.def else get_or s.rec.values id 0
]

-- `settings_set`. `k_work_schedule` leaves work that is scheduled already as it is.
unfoldable pub settings_set : Store → ℕ → ℕ → Store
settings_set s id value = elim (meta_for id) [
  | none ↦ s
  | some m ↦
      if not s.loaded
      then s
      else (let v = clamp value m.min m.max in
          if get_or s.rec.values id 0 == v
          then s
          else record s { rec = record s.rec { values = set s.rec.values id v }; pending = true })
]

-- `crc32_ieee` of Zephyr, and the flash device.
module _ (crc32 : List ℕ → ℕ) (fl : FlashDevice) where
  unfoldable pub rec_crc : StoreRec → ℕ
  rec_crc r = crc32 (crc_bytes r)

  -- The check of one slot: `some` is `a_ok` with `a`.
  unfoldable pub check_slot : Read → Option StoreRec
  unfolding rec_crc
  check_slot (failed e) = none
  check_slot (got bs) =
      let a = rec_of_bytes bs in
      if a.magic == store_magic && a.crc == rec_crc a then some a else none

  unfoldable pub load_slot : Mem → ℕ → Option StoreRec
  unfolding check_slot
  load_slot mem i = check_slot (fl.read mem (slot_addr i) 32)

  -- `a_ok && (!b_ok || a.generation >= b.generation)`, then `b_ok`.
  unfoldable pub choose : Option StoreRec → Option StoreRec → Option StoreRec
  choose none b = b
  choose (some a) none = some a
  choose (some a) (some b) = if leb b.generation a.generation then some a else some b

  unfoldable pub settings_store_init : Mem → Store → Store
  unfolding load_slot choose load_defaults sanitize sanitize_one
  settings_store_init mem s =
      if not fl.ready
      then record s { rec = load_defaults s.rec; loaded = true }
      else elim (choose (load_slot mem 0) (load_slot mem 1)) [
        | none ↦ record s { rec = load_defaults s.rec; loaded = true }
        | some r ↦ record s { rec = record r { values = sanitize table r.values }; loaded = true }
      ]

  -- `persist_work_fn`: the record as stamped for the slot that the last one does not live in.
  unfoldable pub stamp : StoreRec → StoreRec
  unfolding rec_crc
  stamp r =
      let r' = record r { generation = u32 (r.generation + 1) } in record r' { crc = rec_crc r' }

  unfoldable pub persist_work_fn : Mem → Store → Status × Mem × Store
  unfolding stamp
  persist_work_fn mem s =
      let r = stamp s.rec in
      let (st, mem') = fl.write mem (slot_addr (r.generation % 2)) (rec_bytes r) in
      (st, mem', record s { rec = r; pending = false })
