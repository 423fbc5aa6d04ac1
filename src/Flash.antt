-- ===== src/Flash.antt =====
-- The RRAM and the flash driver (cpuapp_rram) through which imu_log.c and settings_store.c reach
-- it. The driver is Zephyr's: its operations are the fields of a record that the users take.
pub mod Laws
pub mod Ideal
use moamoa_caterpillar_firmw.Base.{
  ℕ, ◌+◌, ◌-◌, ◌≤◌, ◌≡◌, Bool, true, ◌&&◌, List, tabulate, length, get_or, leb, ltb, if◌then◌else◌,
}
use moamoa_caterpillar_firmw.Errno.{Errno, Status, ok}

-- The byte at each absolute address.
abbrev pub Mem : Type 0
Mem = ℕ → ℕ

-- The bytes from an address on.
abbrev pub bytes : Mem → ℕ → ℕ → List ℕ
bytes m a n = tabulate m a n

-- RRAM needs no erase: a write replaces the bytes.
unfoldable pub patch : Mem → ℕ → List ℕ → Mem
patch m a bs x = if leb a x && ltb x (a + length bs) then get_or bs (x - a) 0 else m x

pub data Read : Type 0 where
  got : List ℕ → Read
  failed : Errno → Read

-- `flash_read(dev, offset, buf, len)` and `flash_write(dev, offset, buf, len)`.
pub record FlashDevice : Type 0 where
  pub ready : Bool
  pub read : Mem → ℕ → ℕ → Read
  pub write : Mem → ℕ → List ℕ → Status × Mem

-- The device of the app core ends at 0x165000; an access beyond it fails.
abbrev pub flash_end : ℕ
flash_end = 0x165000

-- The driver's documented behaviour on a device that works: inside the range a read returns the
-- bytes, and a write stores them and nothing else.
pub record Works (fl : FlashDevice) : Type 0 where
  pub is_ready : fl.ready ≡ true
  pub reads : (m : Mem) (a n : ℕ) → a + n ≤ flash_end → fl.read m a n ≡ got (bytes m a n)
  pub writes :
      (m : Mem) (a : ℕ) (bs : List ℕ)
      → a + length bs ≤ flash_end
      → fl.write m a bs ≡ (ok, patch m a bs)
