-- ===== src/Flash/Ideal.antt =====
-- A flash device and a checksum that keep the documented behaviour, for runs of the models.
use moamoa_caterpillar_firmw.Base.{
  ℕ, ◌+◌, ◌*◌, ◌%◌, ◌<◌, refl, true, List, [], ◌∷◌, length, leb, le→leb, if◌then◌else◌, arith,
}
use moamoa_caterpillar_firmw.Errno.{ok, err, eio}
use moamoa_caterpillar_firmw.Flash.{bytes, patch, got, failed, FlashDevice, flash_end, Works}

abbrev pub ideal : FlashDevice
ideal = record {
  ready = true;
  read = λ m a n. if leb (a + n) flash_end then got (bytes m a n) else failed eio;
  write = λ m a bs. if leb (a + length bs) flash_end then (ok, patch m a bs) else (err eio, m);
}

pub ideal-Works : Works ideal
ideal-Works = record {
  is_ready = refl;
  reads = λ m a n h. rw (le→leb _ _ h) refl;
  writes = λ m a bs h. rw (le→leb _ _ h) refl;
}

unfoldable pub checksum : List ℕ → ℕ
checksum [] = 1
checksum (b ∷ bs) = (b + 31 * checksum bs) % 65_521

pub checksum_fits : (bs : List ℕ) → checksum bs < 4_294_967_296
unfolding checksum
checksum_fits [] = omega arith
checksum_fits (b ∷ bs) = omega arith
