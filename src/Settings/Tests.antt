-- ===== src/Settings/Tests.antt =====
-- Runs of the settings store: src/settings/settings_store.c.
use moamoa_caterpillar_firmw.Base.{
  ℕ, ◌+◌, ◌%◌, ◌≤◌, ◌<◌, ◌≡◌, refl, true, false, [], ◌∷◌, none, arith, ◌⊎◌, inl, get_words16,
  words16,
}
use moamoa_caterpillar_firmw.Errno.{ok}
use moamoa_caterpillar_firmw.Flash.{Mem, patch, bytes}
use moamoa_caterpillar_firmw.Flash.Laws.{patch-out}
use moamoa_caterpillar_firmw.Flash.Ideal.{ideal, ideal-Works, checksum, checksum_fits}
use moamoa_caterpillar_firmw.Settings.Registry.{find_meta, meta_for}
use moamoa_caterpillar_firmw.Settings.Store.{
  StoreRec, Store, store_magic, slot_addr, rec_bytes, rec_of_bytes, rec_crc, stamp, set_defaults,
  load_defaults, settings_store_init, persist_work_fn, load_slot, check_slot, crc_bytes,
}
use moamoa_caterpillar_firmw.Settings.Ranges.{InRange}
use moamoa_caterpillar_firmw.Settings.Persist.{
  IsStamped, CanPersist, NoNewer, persist_work_fn-reload, power_cut_keeps_old,
}
use moamoa_caterpillar_firmw.Settings.Records.{rec_of_bytes-rec_bytes}

-- RRAM as it comes from the factory.
abbrev blank : Mem
blank = λ x. 255

abbrev cold : Store
cold = record {
  rec = record { magic = 0; generation = 0; values = []; crc = 0 };
  loaded = false;
  pending = false;
}

abbrev booted : Store
booted = settings_store_init checksum ideal blank cold

-- The defaults, as `load_defaults` leaves them.
abbrev fresh : Store
fresh = record {
  rec = record {
    magic = store_magic;
    generation = 0;
    values = 0 ∷ 150 ∷ 3100 ∷ 7 ∷ 3 ∷ 0 ∷ 0 ∷ 0 ∷ 1 ∷ 0 ∷ [];
    crc = 0;
  };
  loaded = true;
  pending = true;
}

load_defaults_example : load_defaults cold.rec ≡ fresh.rec
unfolding load_defaults set_defaults
load_defaults_example = refl

fresh-InRange : InRange fresh.rec.values
unfolding meta_for find_meta
fresh-InRange id m e = ground arith

blank_slot : (i : ℕ) → i < 2 → load_slot checksum ideal blank i ≡ none
unfolding load_slot check_slot
blank_slot i h = ground arith

fresh-CanPersist : CanPersist checksum ideal ideal-Works blank fresh
fresh-CanPersist = record {
  sized = refl;
  values_fit = ground arith;
  magic_ok = refl;
  small = omega arith;
  older = inl (blank_slot 0 (omega arith));
}

persist_work_fn-reload_example :
    let (st, mem', s') = persist_work_fn checksum ideal blank fresh in
    (st ≡ ok)
    × (s'.rec.values ≡ fresh.rec.values)
    × ((settings_store_init checksum ideal mem' cold).rec ≡ s'.rec)
    × (s'.rec.generation ≡ fresh.rec.generation + 1)
    × NoNewer checksum ideal ideal-Works mem' (s'.rec.generation % 2) s'.rec.generation
persist_work_fn-reload_example =
    persist_work_fn-reload checksum ideal ideal-Works checksum_fits blank fresh cold
      fresh-CanPersist fresh-InRange

-- A record in slot 1, and the store that has it loaded.
abbrev live : StoreRec
live = record {
  magic = store_magic;
  generation = 1;
  values = fresh.rec.values;
  crc = checksum (crc_bytes (record fresh.rec { generation = 1 }));
}

abbrev flashed : Mem
flashed = patch blank (slot_addr 1) (rec_bytes live)

live-IsStamped : IsStamped checksum ideal ideal-Works live
live-IsStamped = record {
  fits = record {
    magic_fits = omega arith;
    generation_fits = omega arith;
    sized = refl;
    values_fit = ground arith;
    crc_fits = checksum_fits _;
  };
  magic_ok = refl;
  crc_ok = refl;
}

live-bytes : bytes flashed (slot_addr 1) 32 ≡ rec_bytes live
unfolding patch words16
live-bytes = refl

rec_of_bytes-rec_bytes_example : rec_of_bytes (rec_bytes live) ≡ live
rec_of_bytes-rec_bytes_example = rec_of_bytes-rec_bytes live live-IsStamped.fits

-- Power was lost after the magic and one byte of the generation.
abbrev torn : Mem
torn = patch flashed (slot_addr 0) (0x43 ∷ 0x53 ∷ 0x45 ∷ 0x54 ∷ 2 ∷ [])

torn_slot : load_slot checksum ideal torn ((stamp checksum ideal live).generation % 2) ≡ none
unfolding load_slot check_slot patch words16 get_words16 stamp rec_crc checksum
torn_slot = refl

torn_elsewhere :
    (x : ℕ)
    → let target = slot_addr ((stamp checksum ideal live).generation % 2) in
      (x < target) ⊎ (target + 32 ≤ x) → torn x ≡ flashed x
unfolding stamp
torn_elsewhere x h = patch-out flashed (slot_addr 0) _ x (omega arith)

power_cut_keeps_old_example : (settings_store_init checksum ideal torn cold).rec ≡ live
power_cut_keeps_old_example =
    power_cut_keeps_old checksum ideal ideal-Works checksum_fits flashed torn
      (record fresh { rec = live }) cold live live-IsStamped fresh-InRange refl (omega arith)
      live-bytes torn_elsewhere torn_slot
