-- ===== src/Flash/Laws.antt =====
-- What a read sees of a write.
use moamoa_caterpillar_firmw.Base.{
  ℕ, zero, suc, ◌+◌, ◌-◌, ◌≤◌, ◌<◌, ◌≡◌, refl, ap₂, ◌∙◌, ◌⊎◌, List, ◌∷◌, length, get_or, arith,
  take, drop, ap, subst, tabulate-ext, tabulate-get_or, take-all,
}
use moamoa_caterpillar_firmw.Flash.{Mem, bytes, patch}

pub patch-in :
    (m : Mem) (a : ℕ) (bs : List ℕ) (x : ℕ)
    → a ≤ x
    → x < a + length bs
    → patch m a bs x ≡ get_or bs (x - a) 0
unfolding patch
patch-in m a bs x h k = ground arith

pub patch-out :
    (m : Mem) (a : ℕ) (bs : List ℕ) (x : ℕ) → (x < a) ⊎ (a + length bs ≤ x) → patch m a bs x ≡ m x
unfolding patch
patch-out m a bs x h = ground arith

-- Bytes that a write does not touch.
pub bytes-patch_apart :
    (m : Mem) (a : ℕ) (bs : List ℕ) (b n : ℕ)
    → (b + n ≤ a) ⊎ (a + length bs ≤ b)
    → bytes (patch m a bs) b n ≡ bytes m b n
bytes-patch_apart m a bs b zero h = refl
bytes-patch_apart m a bs b (suc n) h =
    ap₂ ◌∷◌ (patch-out m a bs b (omega arith)) (bytes-patch_apart m a bs (b + 1) n (omega arith))

-- Bytes inside what was written.
pub bytes-patch_inside :
    (m : Mem) (a : ℕ) (bs : List ℕ) (k n : ℕ)
    → k + n ≤ length bs
    → bytes (patch m a bs) (a + k) n ≡ take n (drop k bs)
bytes-patch_inside m a bs k n h =
    tabulate-ext (patch m a bs) (λ j. get_or bs j 0) (a + k) k n
      (λ j p.
        patch-in m a bs (a + k + j) (omega arith) (omega arith)
        ∙ ap (λ t. get_or bs t 0) (omega arith))
    ∙ tabulate-get_or bs 0 k n h

-- What was written is read back.
pub bytes-patch : (m : Mem) (a : ℕ) (bs : List ℕ) → bytes (patch m a bs) a (length bs) ≡ bs
bytes-patch m a bs =
    let e : a + 0 ≡ a = omega arith in
    subst (λ t. bytes (patch m a bs) t (length bs) ≡ bs) e
      (bytes-patch_inside m a bs 0 (length bs) (omega arith)
        ∙ take-all (length bs) bs (omega arith))
