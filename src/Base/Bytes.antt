-- ===== src/Base/Bytes.antt =====
-- Little-endian layout of words in memory, as the C structs of the firmware have it on both cores.
use Prim.Native.Nat.{ℕ, zero, suc, ◌+◌, ◌*◌, ◌/◌, ◌%◌, ◌<◌}
use mathlib.Core.Path.{◌≡◌, refl, ap₂}
use mathlib.Core.List.{List, [], ◌∷◌, ◌++◌}
use native.Mathlib.Omega.{arith}
use moamoa_caterpillar_firmw.Base.Lists.{length, get_or, drop}

abbrev pub le16 : ℕ → List ℕ
le16 v = (v % 256) ∷ (v / 256 % 256) ∷ []

abbrev pub le32 : ℕ → List ℕ
le32 v = (v % 256) ∷ (v / 256 % 256) ∷ (v / 65_536 % 256) ∷ (v / 16_777_216 % 256) ∷ []

-- The u16 and the u32 whose first byte is number `i`.
abbrev pub get_le16 : List ℕ → ℕ → ℕ
get_le16 bs i = get_or bs i 0 + 256 * get_or bs (suc i) 0

abbrev pub get_le32 : List ℕ → ℕ → ℕ
get_le32 bs i =
    get_or bs i 0
    + 256 * get_or bs (suc i) 0
    + 65_536 * get_or bs (suc (suc i)) 0
    + 16_777_216 * get_or bs (suc (suc (suc i))) 0

-- An array of u16.
unfoldable pub words16 : List ℕ → List ℕ
words16 [] = []
words16 (v ∷ vs) = le16 v ++ words16 vs

unfoldable pub get_words16 : ℕ → List ℕ → List ℕ
get_words16 zero bs = []
get_words16 (suc n) bs = get_le16 bs 0 ∷ get_words16 n (drop 2 bs)

abbrev pub AllBelow : ℕ → List ℕ → Type 0
AllBelow n [] = Unit {0}
AllBelow n (x ∷ xs) = (x < n) × AllBelow n xs

pub le16_lem : (v : ℕ) → v < 65_536 → v % 256 + 256 * (v / 256 % 256) ≡ v
le16_lem v h = omega arith

pub le32_lem :
    (v : ℕ)
    → v < 4_294_967_296
    → v % 256
        + 256 * (v / 256 % 256)
        + 65_536 * (v / 65_536 % 256)
        + 16_777_216 * (v / 16_777_216 % 256)
      ≡ v
le32_lem v h = omega arith

pub get_words16-words16 :
    (vs rest : List ℕ) → AllBelow 65_536 vs → get_words16 (length vs) (words16 vs ++ rest) ≡ vs
unfolding get_words16 words16
get_words16-words16 [] rest h = refl
get_words16-words16 (v ∷ vs) rest h = ap₂ ◌∷◌ (le16_lem v h.0) (get_words16-words16 vs rest h.1)

pub length-words16 : (vs : List ℕ) → length (words16 vs) ≡ 2 * length vs
unfolding words16
length-words16 [] = refl
length-words16 (v ∷ vs) = omega (arith, length-words16 vs)
