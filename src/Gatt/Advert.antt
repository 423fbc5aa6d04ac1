-- ===== src/Gatt/Advert.antt =====
-- src/ble/ble_interface.c: what `build_ad` puts into the advertising data. The device id is what
-- `hwinfo_get_device_id` delivers, no bytes where it fails.
use moamoa_caterpillar_firmw.Base.{
  ℕ, zero, suc, ◌+◌, ◌-◌, ◌*◌, ◌/◌, ◌%◌, ◌≤◌, ◌<◌, ◌≡◌, ◌⊎◌, refl, inl, inr, Bool, Bool-cases, List,
  [], ◌∷◌, ◌++◌, if◌then◌else◌, ltb, leb, ◌==◌, u8, length, get_or, take, arith,
}
use moamoa_caterpillar_firmw.Settings.Registry.{robot_id, meta_for}
use moamoa_caterpillar_firmw.Settings.Store.{Store, settings_get}
use moamoa_caterpillar_firmw.Settings.Ranges.{IsValid}
use moamoa_caterpillar_firmw.Gatt.Sampling.{get-in_range}

-- APP_VERSION_MAJOR, APP_VERSION_MINOR, APP_PATCHLEVEL
pub record Version : Type 0 where
  pub major : ℕ
  pub minor : ℕ
  pub patch : ℕ

-- `adv_name` without its NUL, and `adv_mfg`.
pub record Advert : Type 0 where
  pub name : List ℕ
  pub mfg : List ℕ

-- The decimal digits of a uint16_t, five at most, and `%02u`.
unfoldable pub decimal : ℕ → ℕ → List ℕ
decimal zero n = []
decimal (suc more) n =
    let front = decimal more (n / 10) in
    if ltb n 10 then (n + 48) ∷ [] else front ++ (n % 10 + 48) ∷ []

unfoldable pub format_02u : ℕ → List ℕ
unfolding decimal
format_02u n = if ltb n 10 then 48 ∷ (n + 48) ∷ [] else decimal 5 n

-- `%02X`
abbrev pub hex_digit : ℕ → ℕ
hex_digit d = if ltb d 10 then d + 48 else d + 55

abbrev pub format_02x : ℕ → List ℕ
format_02x b = hex_digit (b / 16) ∷ hex_digit (b % 16) ∷ []

-- "Cat-"
abbrev pub prefix : List ℕ
prefix = 67 ∷ 97 ∷ 116 ∷ 45 ∷ []

-- `adv_name` has room for eleven bytes and the NUL.
unfoldable pub adv_name : List ℕ → ℕ → List ℕ
unfolding format_02u
adv_name uid id =
    let n = length uid in
    take 11 (
      prefix
      ++ (if ltb 0 id
          then format_02u id
          else (if leb 2 n
              then format_02x (get_or uid (n - 2) 0) ++ format_02x (get_or uid (n - 1) 0)
              else 63 ∷ 63 ∷ 63 ∷ 63 ∷ [])))

-- `build_ad`, for the id of the chip and the firmware's version, the settings, and `imu_log_active`.
unfoldable pub build_ad : List ℕ → Version → Store → Bool → Advert
unfolding adv_name
build_ad uid v s active =
    let id = settings_get s robot_id in
    record {
      name = adv_name uid id;
      mfg = 255 ∷ 255 ∷ u8 id ∷ v.major ∷ v.minor ∷ v.patch ∷ (if active then 1 else 0) ∷ [];
    }

-- The bytes on the air: each element has its length and its type before its payload.
abbrev pub air_bytes : Advert → ℕ
air_bytes a = (2 + 1) + (2 + length a.name) + (2 + length a.mfg)

-- The number that a two-digit name shows.
abbrev pub shown_id : List ℕ → ℕ
shown_id name = 10 * (get_or name 4 0 - 48) + (get_or name 5 0 - 48)

format_02u-two :
    (id : ℕ)
    → id < 100
    → (n : ℕ) × (m : ℕ) × (format_02u id ≡ (n + 48) ∷ (m + 48) ∷ []) × (id ≡ 10 * n + m)
unfolding format_02u decimal
format_02u-two id h = elim (Bool-cases (ltb id 10)) [
  | inl one ↦ (0, id, rw one (ground (arith)), omega arith)
  | inr two ↦ (id / 10, id % 10, ground arith, omega arith)
]

-- The name by the number: two digits, or four characters behind the prefix.
adv_name-cases :
    (uid : List ℕ) (id : ℕ)
    → id < 100
    → ((0 < id) × (length (adv_name uid id) ≡ 6) × (shown_id (adv_name uid id) ≡ id))
      ⊎ ((id ≡ 0) × (length (adv_name uid id) ≡ 8))
unfolding adv_name
adv_name-cases uid id h = elim (Bool-cases (ltb 0 id)) [
  | inl given ↦
      let (n, m, e, total) = format_02u-two id h in
      rw (given, e) (inl (ground (arith, given), refl, omega (arith, total)))
  | inr unset ↦ elim (Bool-cases (leb 2 (length uid))) [
    | inl known ↦ rw (unset, known) (inr (ground (arith, unset), refl))
    | inr unknown ↦ rw (unset, unknown) (inr (ground (arith, unset), refl))
  ]
]

-- On a valid store the advertising data fits the 31 bytes of a packet, whatever the chip's id; its
-- third byte of manufacturer data is the robot's number, and its last one says whether a session
-- runs; and a robot with a number shows it in the two digits of its name, one without has a name of
-- another length.
pub build_ad-tells :
    (uid : List ℕ) (v : Version) (s : Store) (active : Bool)
    → IsValid s
    → let a = build_ad uid v s active in
      let id = settings_get s robot_id in
      (air_bytes a ≤ 31)
      × (get_or a.mfg 2 0 ≡ id)
      × ((get_or a.mfg 6 0 == 1) ≡ active)
      × (((0 < id) × (length a.name ≡ 6) × (shown_id a.name ≡ id))
          ⊎ ((id ≡ 0) × (length a.name ≡ 8)))
unfolding build_ad meta_for
build_ad-tells uid v s active valid =
    let id = settings_get s robot_id in
    let (lo, hi) =
      get-in_range s robot_id (record { id = 9; def = 0; min = 0; max = 20 }) valid refl in
    let names = adv_name-cases uid id (omega (arith, hi)) in
    (ground (arith, names), omega (arith, hi), ground arith, names)
