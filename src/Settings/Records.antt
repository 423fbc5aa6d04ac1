-- ===== src/Settings/Records.antt =====
-- The record of src/settings/settings_store.c and its bytes.
use moamoa_caterpillar_firmw.Base.{
  ℕ, ◌≤◌, ◌<◌, ◌≡◌, refl, ap, subst, List, [], ◌∷◌, ◌++◌, arith, length, length-append,
  length-words16, drop, drop-append, le32, le32_lem, words16, get_le32, get_words16,
  get_words16-words16, AllBelow, get_or,
}
use moamoa_caterpillar_firmw.Settings.Registry.{SettingMeta, table, find_meta, meta_for}
use moamoa_caterpillar_firmw.Settings.Store.{
  StoreRec, rec_bytes, rec_of_bytes, sanitize_one, sanitize,
}
use moamoa_caterpillar_firmw.Settings.Ranges.{InRange}

abbrev AllInRange : List SettingMeta → List ℕ → Type 0
AllInRange [] vs = Unit {0}
AllInRange (m ∷ ms) vs =
    ((m.min ≤ get_or vs m.id 0) × (get_or vs m.id 0 ≤ m.max)) × AllInRange ms vs

-- A record whose fields fit their types.
pub record Fits (r : StoreRec) : Type 0 where
  pub magic_fits : r.magic < 4_294_967_296
  pub generation_fits : r.generation < 4_294_967_296
  pub sized : length r.values ≡ 10
  pub values_fit : AllBelow 65_536 r.values
  pub crc_fits : r.crc < 4_294_967_296

pub length-rec_bytes : (r : StoreRec) → length r.values ≡ 10 → length (rec_bytes r) ≡ 32
length-rec_bytes r h =
    omega (arith, length-words16 r.values, length-append {0} (words16 r.values) (le32 r.crc))

drop-rec_bytes : (r : StoreRec) → length r.values ≡ 10 → drop 28 (rec_bytes r) ≡ le32 r.crc
drop-rec_bytes r h =
    let e : length (words16 r.values) ≡ 20 = omega (arith, length-words16 r.values) in
    subst (λ n. drop n (words16 r.values ++ le32 r.crc) ≡ le32 r.crc) e
      (drop-append (words16 r.values) (le32 r.crc))

values-rec_bytes :
    (r : StoreRec) → Fits r → get_words16 10 (words16 r.values ++ le32 r.crc) ≡ r.values
values-rec_bytes r f =
    subst (λ n. get_words16 n (words16 r.values ++ le32 r.crc) ≡ r.values) f.sized
      (get_words16-words16 r.values (le32 r.crc) f.values_fit)

-- The struct is read back from its bytes.
pub rec_of_bytes-rec_bytes : (r : StoreRec) → Fits r → rec_of_bytes (rec_bytes r) ≡ r
rec_of_bytes-rec_bytes r f = ground (
  arith,
  le32_lem r.magic,
  le32_lem r.generation,
  le32_lem r.crc,
  values-rec_bytes r f,
  ap (λ bs. get_le32 bs 0) (drop-rec_bytes r f.sized),
)

-- Values in their ranges are not touched by the clamping loop.
sanitize_one-in_range :
    (m : SettingMeta) (vs : List ℕ)
    → m.min ≤ get_or vs m.id 0
    → get_or vs m.id 0 ≤ m.max
    → sanitize_one m vs ≡ vs
unfolding sanitize_one
sanitize_one-in_range m vs h k = ground arith

sanitize-in_range_all :
    (ms : List SettingMeta) (vs : List ℕ) → AllInRange ms vs → sanitize ms vs ≡ vs
unfolding sanitize
sanitize-in_range_all [] vs h = refl
sanitize-in_range_all (m ∷ ms) vs h =
    rw (sanitize_one-in_range m vs h.0.0 h.0.1) (sanitize-in_range_all ms vs h.1)

table-InRange : (vs : List ℕ) → InRange vs → AllInRange table vs
unfolding meta_for find_meta
table-InRange vs h = (
  h 1 _ refl,
  (
    h 2 _ refl,
    (
      h 3 _ refl,
      (h 4 _ refl, (h 5 _ refl, (h 6 _ refl, (h 7 _ refl, (h 8 _ refl, (h 9 _ refl, tt)))))),
    ),
  ),
)

pub sanitize-table : (vs : List ℕ) → InRange vs → sanitize table vs ≡ vs
sanitize-table vs h = sanitize-in_range_all table vs (table-InRange vs h)
