-- ===== src/Settings/Ranges.antt =====
-- The values of src/settings/settings_store.c and the ranges of the registry.
use moamoa_caterpillar_firmw.Base.{
  ℕ, zero, suc, ◌≤◌, ◌<◌, ◌≡◌, refl, ap, ◌∙◌, ◌≢◌, inl, inr, true, Bool-cases, Option-cases, List,
  [], ◌∷◌, none, some, arith, length, get_or, set, clamp, length-set, get_or-set_self,
  get_or-set_ne, get_words16, drop, ◌==◌, if◌then◌else◌,
}
use moamoa_caterpillar_firmw.Flash.{Mem, FlashDevice}
use moamoa_caterpillar_firmw.Settings.Registry.{SettingMeta, table, find_meta, meta_for}
use moamoa_caterpillar_firmw.Settings.Store.{
  StoreRec, Store, set_defaults, load_defaults, sanitize_one, sanitize, settings_get, settings_set,
  load_slot, choose, settings_store_init,
}

-- Every registered setting has a value between its minimum and its maximum.
abbrev pub InRange : List ℕ → Type 0
InRange vs =
    (id : ℕ) (m : SettingMeta)
    → meta_for id ≡ some m
    → (m.min ≤ get_or vs id 0) × (get_or vs id 0 ≤ m.max)

pub record IsValid (s : Store) : Type 0 where
  pub is_loaded : s.loaded ≡ true
  pub sized : length s.rec.values ≡ 10
  pub in_range : InRange s.rec.values

-- Ids are distinct and fit the array, and a default lies in its range.
abbrev pub WellFormed : List SettingMeta → Type 0
WellFormed [] = Unit {0}
WellFormed (m ∷ ms) =
    ((m.id < 10) × (m.min ≤ m.def) × (m.def ≤ m.max)) × (find_meta ms m.id ≡ none) × WellFormed ms

pub table-WellFormed : WellFormed table
unfolding find_meta
table-WellFormed = ground arith

find_meta_lem :
    (ms : List SettingMeta) (id : ℕ) (m : SettingMeta)
    → WellFormed ms
    → find_meta ms id ≡ some m
    → (m.id ≡ id) × (m.id < 10) × (m.min ≤ m.def) × (m.def ≤ m.max)
unfolding find_meta
find_meta_lem [] id m w e = cc
find_meta_lem (x ∷ ms) id m w e = ground (arith, find_meta_lem ms id m w.2)

-- What the registry says of an id that it knows.
pub meta_for_lem :
    (id : ℕ) (m : SettingMeta)
    → meta_for id ≡ some m
    → (m.id ≡ id) × (m.id < 10) × (m.min ≤ m.def) × (m.def ≤ m.max)
unfolding meta_for
meta_for_lem id m e = find_meta_lem table id m table-WellFormed e

pub length-get_words16 : (n : ℕ) (bs : List ℕ) → length (get_words16 n bs) ≡ n
unfolding get_words16
length-get_words16 zero bs = refl
length-get_words16 (suc n) bs = ap suc (length-get_words16 n (drop 2 bs))

length-sanitize_one : (m : SettingMeta) (vs : List ℕ) → length (sanitize_one m vs) ≡ length vs
unfolding sanitize_one
length-sanitize_one m vs = ground (arith, length-set vs m.id m.def)

pub length-sanitize : (ms : List SettingMeta) (vs : List ℕ) → length (sanitize ms vs) ≡ length vs
unfolding sanitize
length-sanitize [] vs = refl
length-sanitize (m ∷ ms) vs = length-sanitize ms (sanitize_one m vs) ∙ length-sanitize_one m vs

get_or-sanitize_one_ne :
    (m : SettingMeta) (vs : List ℕ) (id : ℕ)
    → m.id ≢ id
    → get_or (sanitize_one m vs) id 0 ≡ get_or vs id 0
unfolding sanitize_one
get_or-sanitize_one_ne m vs id h = ground (arith, get_or-set_ne vs m.id id m.def 0 h)

get_or-sanitize_one_self :
    (m : SettingMeta) (vs : List ℕ)
    → m.id < length vs
    → m.min ≤ m.def
    → m.def ≤ m.max
    → (m.min ≤ get_or (sanitize_one m vs) m.id 0) × (get_or (sanitize_one m vs) m.id 0 ≤ m.max)
unfolding sanitize_one
get_or-sanitize_one_self m vs h p q = ground (arith, get_or-set_self vs m.id m.def 0 h)

-- An id without an entry is left alone.
get_or-sanitize_unknown :
    (ms : List SettingMeta) (vs : List ℕ) (id : ℕ)
    → find_meta ms id ≡ none
    → get_or (sanitize ms vs) id 0 ≡ get_or vs id 0
unfolding sanitize find_meta
get_or-sanitize_unknown [] vs id e = refl
get_or-sanitize_unknown (m ∷ ms) vs id e = elim (Bool-cases (m.id == id)) [
  | inl hit ↦ absurd (ground arith)
  | inr miss ↦
      get_or-sanitize_unknown ms (sanitize_one m vs) id (ground arith)
      ∙ get_or-sanitize_one_ne m vs id (ground arith)
]

pub sanitize-in_range :
    (ms : List SettingMeta) (vs : List ℕ) (id : ℕ) (m : SettingMeta)
    → WellFormed ms
    → length vs ≡ 10
    → find_meta ms id ≡ some m
    → (m.min ≤ get_or (sanitize ms vs) id 0) × (get_or (sanitize ms vs) id 0 ≤ m.max)
unfolding sanitize find_meta
sanitize-in_range [] vs id m w l e = absurd (cc)
sanitize-in_range (x ∷ ms) vs id m w l e = elim (Bool-cases (x.id == id)) [
  | inl hit ↦ ground (
    arith,
    get_or-sanitize_unknown ms (sanitize_one x vs) x.id w.1,
    get_or-sanitize_one_self x vs,
    w.0,
  )
  | inr miss ↦
      sanitize-in_range ms (sanitize_one x vs) id m w.2 (length-sanitize_one x vs ∙ l)
        (ground arith)
]

defaults-InRange : (r : StoreRec) → InRange (load_defaults r).values
unfolding load_defaults set_defaults meta_for find_meta
defaults-InRange r id m e = ground arith

length-defaults : (r : StoreRec) → length (load_defaults r).values ≡ 10
unfolding load_defaults set_defaults
length-defaults r = refl

-- What the slots hold when they are read has ten values.
module _ (crc32 : List ℕ → ℕ) (fl : FlashDevice) where
  length-load_slot :
      (mem : Mem) (i : ℕ) (r : StoreRec) → load_slot crc32 fl mem i ≡ some r → length r.values ≡ 10
  unfolding load_slot
  length-load_slot mem i r e = grind (arith, length-get_words16)

  length-choose :
      (mem : Mem) (r : StoreRec)
      → choose crc32 fl (load_slot crc32 fl mem 0) (load_slot crc32 fl mem 1) ≡ some r
      → length r.values ≡ 10
  unfolding choose
  length-choose mem r e = ground (arith, length-load_slot mem 0 r, length-load_slot mem 1 r)

  loaded_values :
      (mem : Mem) (s : Store) (r : StoreRec)
      → fl.ready ≡ true
      → choose crc32 fl (load_slot crc32 fl mem 0) (load_slot crc32 fl mem 1) ≡ some r
      → IsValid (record s { rec = record r { values = sanitize table r.values }; loaded = true })
  unfolding meta_for
  loaded_values mem s r h e =
      let l = length-choose mem r e in
      record {
        is_loaded = refl;
        sized = length-sanitize table r.values ∙ l;
        in_range = λ id m f. sanitize-in_range table r.values id m table-WellFormed l f;
      }

  default_values : (s : Store) → IsValid (record s { rec = load_defaults s.rec; loaded = true })
  default_values s = record {
    is_loaded = refl;
    sized = length-defaults s.rec;
    in_range = defaults-InRange s.rec;
  }

  -- Whatever the two flash slots hold, and whether or not the flash device is ready or a read
  -- fails, after `settings_store_init` the store is loaded and every registered setting lies in its
  -- range.
  pub settings_store_init-IsValid :
      (mem : Mem) (s : Store) → IsValid (settings_store_init crc32 fl mem s)
  unfolding settings_store_init
  settings_store_init-IsValid mem s = elim (Bool-cases fl.ready) [
    | inr idle ↦ rw idle (default_values s)
    | inl up ↦
        elim (Option-cases
          (choose crc32 fl (load_slot crc32 fl mem 0) (load_slot crc32 fl mem 1))) [
            | inl e ↦ rw (up, e) (default_values s)
            | inr (r, e) ↦ rw (up, e) (loaded_values mem s r up e)
          ]
  ]

-- The value that `settings_set` writes.
set-InRange :
    (vs : List ℕ) (id value : ℕ) (m : SettingMeta)
    → length vs ≡ 10
    → meta_for id ≡ some m
    → InRange vs
    → InRange (set vs id (clamp value m.min m.max))
set-InRange vs id value m l e r j m' f = elim (Bool-cases (id == j)) [
  | inl same ↦
      ground (arith, meta_for_lem id m e, get_or-set_self vs id (clamp value m.min m.max) 0)
  | inr apart ↦ ground (arith, r j m' f, get_or-set_ne vs id j (clamp value m.min m.max) 0)
]

settings_set-none : (s : Store) (id value : ℕ) → meta_for id ≡ none → settings_set s id value ≡ s
unfolding settings_set
settings_set-none s id value e = rw (e, settings_set)

settings_set-some :
    (s : Store) (id value : ℕ) (m : SettingMeta)
    → s.loaded ≡ true
    → meta_for id ≡ some m
    → settings_set s id value ≡ (
        let v = clamp value m.min m.max in
        if get_or s.rec.values id 0 == v
        then s
        else record s { rec = record s.rec { values = set s.rec.values id v }; pending = true })
unfolding settings_set
settings_set-some s id value m l e = ground arith

-- `settings_set` keeps the store valid, for any id and any value.
pub settings_set-IsValid :
    (s : Store) (id value : ℕ) → IsValid s → IsValid (settings_set s id value)
settings_set-IsValid s id value v = elim (Option-cases (meta_for id)) [
  | inl e ↦ rw (settings_set-none s id value e) v
  | inr (m, e) ↦
      rw (settings_set-some s id value m v.is_loaded e)
        (elim (Bool-cases (get_or s.rec.values id 0 == clamp value m.min m.max)) [
          | inl same ↦ rw same v
          | inr new ↦ rw new (record {
            is_loaded = v.is_loaded;
            sized = length-set s.rec.values id (clamp value m.min m.max) ∙ v.sized;
            in_range = set-InRange s.rec.values id value m v.sized e v.in_range;
          })
        ])
]

-- On a valid store and a registered id, `settings_set` makes `settings_get` return the value
-- clamped to the range, and changes no other setting.
pub settings_get-set :
    (s : Store) (id value j : ℕ) (m : SettingMeta)
    → IsValid s
    → meta_for id ≡ some m
    → settings_get (settings_set s id value) j
      ≡ (if id == j then clamp value m.min m.max else settings_get s j)
unfolding settings_get
settings_get-set s id value j m v e =
    rw (settings_set-some s id value m v.is_loaded e) (elim (Bool-cases (id == j)) [
      | inl same ↦ ground (
        arith,
        v.is_loaded,
        v.sized,
        meta_for_lem id m e,
        get_or-set_self s.rec.values id (clamp value m.min m.max) 0,
      )
      | inr apart ↦
          ground (arith, v.is_loaded, get_or-set_ne s.rec.values id j (clamp value m.min m.max) 0)
    ])
