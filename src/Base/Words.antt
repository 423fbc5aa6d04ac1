-- ===== src/Base/Words.antt =====
-- Machine words as native numbers, and their little-endian bytes.
use Prim.Native.Nat.{ℕ, ◌+◌, ◌-◌, ◌%◌, min, max}

abbrev pub u8 : ℕ → ℕ
u8 n = n % 256

abbrev pub u16 : ℕ → ℕ
u16 n = n % 65_536

abbrev pub u32 : ℕ → ℕ
u32 n = n % 4_294_967_296

-- uint32_t a - b, for b below 2 ^ 32.
abbrev pub sub32 : ℕ → ℕ → ℕ
sub32 a b = (a + 4_294_967_296 - b) % 4_294_967_296

-- The CLAMP macro.
abbrev pub clamp : ℕ → ℕ → ℕ → ℕ
clamp v lo hi = min (max v lo) hi
