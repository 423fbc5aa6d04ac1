-- ===== src/Log/Contents.antt =====
-- The record ring of src/imu/imu_log.c as a flat history of bytes.
use moamoa_caterpillar_firmw.Base.{
  ℕ, suc, ◌+◌, ◌-◌, ◌*◌, ◌/◌, ◌%◌, ◌≤◌, ◌<◌, ◌≡◌, refl, ap, ap₂, sym, ◌∙◌, ◌⊎◌, inl, inr, List, [],
  ◌∷◌, arith, length, length-append, get_or, get_or-append_left, get_or-append_right, ltb,
  le→not_ltb, if◌then◌else◌,
}
use moamoa_caterpillar_firmw.Flash.{Mem, patch}
use moamoa_caterpillar_firmw.Flash.Laws.{patch-in, patch-out}
use moamoa_caterpillar_firmw.Imu.Shared.{Sample, zero_sample, sample_bytes}
use moamoa_caterpillar_firmw.Log.Entry.{data_base, data_capacity, rec_capacity}
use moamoa_caterpillar_firmw.Log.State.{ring_floor}
use moamoa_caterpillar_firmw.Log.Writer.{batch_bytes}

-- The byte number `b` of a history of records, 16 bytes to a record.
unfoldable pub history_byte : (ℕ → Sample) → ℕ → ℕ
history_byte hist b = get_or (sample_bytes (hist (b / 16))) (b % 16) 0

-- The ring holds the last records of the history, each byte at its place round the ring.
abbrev pub Holds : Mem → ℕ → (ℕ → Sample) → Type 0
Holds mem total hist =
    (b : ℕ)
    → 16 * ring_floor total ≤ b
    → b < 16 * total
    → mem (data_base + b % data_capacity) ≡ history_byte hist b

-- The oldest record that is still in the ring.
pub floor_lem : (total : ℕ) → ring_floor total ≡ total - rec_capacity
unfolding ring_floor
floor_lem total = ground arith

-- The history with records added at an absolute index.
unfoldable pub extend : (ℕ → Sample) → ℕ → List Sample → ℕ → Sample
extend hist total batch i = if ltb i total then hist i else get_or batch (i - total) zero_sample

pub length-sample_bytes : (s : Sample) → length (sample_bytes s) ≡ 16
unfolding sample_bytes
length-sample_bytes s = refl

pub length-batch_bytes : (ss : List Sample) → length (batch_bytes ss) ≡ 16 * length ss
unfolding batch_bytes
length-batch_bytes [] = refl
length-batch_bytes (s ∷ ss) = omega (
  arith,
  length-append {0} (sample_bytes s) (batch_bytes ss),
  length-sample_bytes s,
  length-batch_bytes ss,
)

-- Byte `j` of a batch lies in record `j / 16`.
get_or-batch_bytes :
    (ss : List Sample) (j : ℕ)
    → j < 16 * length ss
    → get_or (batch_bytes ss) j 0
      ≡ get_or (sample_bytes (get_or ss (j / 16) zero_sample)) (j % 16) 0
unfolding batch_bytes
get_or-batch_bytes [] j h = absurd (omega arith)
get_or-batch_bytes (s ∷ ss) j h = elim (first_or_later j) [
  | inl first ↦
      get_or-append_left (sample_bytes s) (batch_bytes ss) j 0
        (omega (arith, length-sample_bytes s))
      ∙ ap₂ (λ q r. get_or (sample_bytes (get_or (s ∷ ss) q zero_sample)) r 0) {x = 0} {y = j / 16}
          (omega arith) (omega arith)
  | inr later ↦
      get_or-append_right (sample_bytes s) (batch_bytes ss) j 0
        (omega (arith, length-sample_bytes s))
      ∙ ap (λ k. get_or (batch_bytes ss) k 0) {y = j - 16} (omega (arith, length-sample_bytes s))
      ∙ get_or-batch_bytes ss (j - 16) (omega arith)
      ∙ ap₂ (λ q r. get_or (sample_bytes (get_or (s ∷ ss) q zero_sample)) r 0)
          {x = suc ((j - 16) / 16)} {y = j / 16} (omega arith) (omega arith)
]
  where
    first_or_later : (j : ℕ) → (j < 16) ⊎ (16 ≤ j)
    first_or_later j = omega arith

pub history_byte-extend_old :
    (hist : ℕ → Sample) (total : ℕ) (batch : List Sample) (b : ℕ)
    → b < 16 * total
    → history_byte (extend hist total batch) b ≡ history_byte hist b
unfolding history_byte extend
history_byte-extend_old hist total batch b h = ground arith

history_byte-extend_new :
    (hist : ℕ → Sample) (total : ℕ) (batch : List Sample) (b : ℕ)
    → 16 * total ≤ b
    → b < 16 * total + 16 * length batch
    → history_byte (extend hist total batch) b ≡ get_or (batch_bytes batch) (b - 16 * total) 0
unfolding history_byte extend
history_byte-extend_new hist total batch b lo hi = rw (le→not_ltb (b / 16) total (omega arith)) (
    ap₂ (λ q r. get_or (sample_bytes (get_or batch q zero_sample)) r 0) {x = b / 16 - total}
      {y = (b - 16 * total) / 16} (omega arith) (omega arith)
    ∙ sym (get_or-batch_bytes batch (b - 16 * total) (omega arith)))

-- Writing a batch at the head of the ring, short of the ring's end, extends the history by it; the
-- bytes that it overwrites are those below the new floor.
pub Holds-patch :
    (mem : Mem) (total : ℕ) (hist : ℕ → Sample) (batch : List Sample)
    → length batch ≤ rec_capacity - total % rec_capacity
    → Holds mem total hist
    → Holds
        (patch mem (data_base + total % rec_capacity * 16) (batch_bytes batch))
        (total + length batch)
        (extend hist total batch)
Holds-patch mem total hist batch fits h b lo hi = elim (old_or_new b) [
  | inl old ↦
      patch-out mem _ (batch_bytes batch) (data_base + b % data_capacity)
        (omega (arith, length-batch_bytes batch, floor_lem (total + length batch)))
      ∙ h b (omega (arith, floor_lem total, floor_lem (total + length batch))) old
      ∙ sym (history_byte-extend_old hist total batch b old)
  | inr new ↦
      patch-in mem _ (batch_bytes batch) (data_base + b % data_capacity)
        (omega (arith, length-batch_bytes batch)) (omega (arith, length-batch_bytes batch))
      ∙ ap (λ k. get_or (batch_bytes batch) k 0) (omega arith)
      ∙ sym (history_byte-extend_new hist total batch b new (omega arith))
]
  where
    old_or_new : (b : ℕ) → (b < 16 * total) ⊎ (16 * total ≤ b)
    old_or_new b = omega arith
