-- ===== src/Errno.antt =====
-- The int results of the drivers: 0, or a negative errno of Zephyr's errno.h.
use moamoa_caterpillar_firmw.Base.{ℕ, Bool, true, false, ◌≡◌, ◌⊎◌, inl, inr, refl}

pub data Errno : Type 0 where
  einval enodev eio ebusy enospc eagain enomem enobufs ealready enomsg : Errno
  other : ℕ → Errno

pub data Status : Type 0 where
  ok : Status
  err : Errno → Status

-- `ret < 0`
abbrev pub is_err : Status → Bool
is_err ok = false
is_err (err e) = true

pub Status-cases : (st : Status) → (st ≡ ok) ⊎ ((e : Errno) × (st ≡ err e))
Status-cases ok = inl refl
Status-cases (err e) = inr (e, refl)
