-- ===== src/Dump/History.antt =====
-- The history ring of the messages in src/ble/ble_transport.c, as a text of which the end is kept.
use moamoa_caterpillar_firmw.Base.{
  ℕ, ◌+◌, ◌-◌, ◌%◌, ◌≤◌, ◌<◌, ◌≡◌, ◌≢◌, refl, ap, sym, subst, ◌∙◌, ◌⊎◌, inl, inr, false, Bool-cases,
  List, [], ◌∷◌, ◌++◌, append-nil, append_assoc, arith, ltb, ◌==◌, min, u32, sub32, length,
  length-append, take, drop, take-all, tabulate, tabulate-ext, tabulate-get_or, get_or,
  get_or-append_left, get_or-append_right, length-drop, length-take,
}
use moamoa_caterpillar_firmw.Imu.Shared.{update}
use moamoa_caterpillar_firmw.Dump.Messages.{
  Messages, t2_ring_size, msgq_n, t2_put_byte, t2_put, enqueue_line, t2_store, t2_snapshot, ble_msg,
}

-- The ring after the text was written to it.
pub record Keeps (text : List ℕ) (m : Messages) : Type 0 where
  pub head_ok : m.t2_head ≡ length text
  pub kept :
      (i : ℕ)
      → i < length text
      → length text ≤ i + t2_ring_size
      → m.t2_ring (i % t2_ring_size) ≡ get_or text i 0

update_cases :
    (f : ℕ → ℕ) (i v j : ℕ) → (i ≡ j → update f i v j ≡ v) × (i ≢ j → update f i v j ≡ f j)
unfolding update
update_cases f i v j = ground arith

put-Keeps :
    (text : List ℕ) (b : ℕ) (m : Messages)
    → Keeps text m
    → length text + 1 < 4_294_967_296
    → Keeps (text ++ b ∷ []) (t2_put_byte b m)
unfolding t2_put_byte
put-Keeps text b m k small = record {
  head_ok = omega (arith, k.head_ok, length-append {0} text (b ∷ []));
  kept = λ i lt near. elim (last_or_old i lt) [
    | inl e ↦
        (update_cases m.t2_ring (m.t2_head % t2_ring_size) b (i % t2_ring_size)).0
          (omega (arith, e, k.head_ok))
        ∙ ap (λ j. get_or (b ∷ []) j 0) {x = 0} (omega (arith, e))
        ∙ sym (get_or-append_right text (b ∷ []) i 0 (omega (arith, e)))
    | inr old ↦
        (update_cases m.t2_ring (m.t2_head % t2_ring_size) b (i % t2_ring_size)).1
          (omega (arith, old, k.head_ok, near, length-append {0} text (b ∷ [])))
        ∙ k.kept i old (omega (arith, near, length-append {0} text (b ∷ [])))
        ∙ sym (get_or-append_left text (b ∷ []) i 0 old)
  ];
}
  where
    last_or_old : (i : ℕ) → i < length (text ++ b ∷ []) → (i ≡ length text) ⊎ (i < length text)
    last_or_old i lt = omega (arith, length-append {0} text (b ∷ []))

-- The history grows by each byte stored.
t2_put-Keeps :
    (bs text : List ℕ) (m : Messages)
    → Keeps text m
    → length text + length bs < 4_294_967_296
    → Keeps (text ++ bs) (t2_put bs m)
unfolding t2_put
t2_put-Keeps [] text m k small = subst (λ t. Keeps t m) (sym (append-nil text)) k
t2_put-Keeps (b ∷ bs) text m k small =
    subst (λ t. Keeps t (t2_put bs (t2_put_byte b m))) (append_assoc text (b ∷ []) bs)
      (t2_put-Keeps bs (text ++ b ∷ []) (t2_put_byte b m) (put-Keeps text b m k (omega arith))
        (omega (arith, length-append {0} text (b ∷ []))))

-- A snapshot of the ring is the end of the text, as much as was asked for and the ring holds.
pub t2_snapshot-end :
    (text : List ℕ) (m : Messages) (most : ℕ)
    → Keeps text m
    → length text < 4_294_967_296
    → t2_snapshot most m ≡ drop (length text - min (min (length text) t2_ring_size) most) text
unfolding t2_snapshot
t2_snapshot-end text m most k small =
    let size = length text in
    let used = min (min size t2_ring_size) most in
    ap
      (λ h.
        tabulate (λ i. m.t2_ring (u32 (sub32 h (min (min h t2_ring_size) most) + i) % t2_ring_size))
          0 (min (min h t2_ring_size) most))
      k.head_ok
    ∙ tabulate-ext (λ i. m.t2_ring (u32 (sub32 size used + i) % t2_ring_size))
        (λ i. get_or text i 0) 0 (size - used) used
        (λ j p.
          ap (λ t. m.t2_ring (t % t2_ring_size)) {x = u32 (sub32 size used + (0 + j))}
            {y = size - used + j} (omega arith)
          ∙ k.kept (size - used + j) (omega arith) (omega arith))
    ∙ tabulate-get_or text 0 (size - used) used (omega arith)
    ∙ take-all used (drop (size - used) text) (omega (arith, length-drop (size - used) text))

-- The statics of the queue.
SameQueue : Messages → Messages → Type 0
SameQueue m m' = (m'.msgq_head ≡ m.msgq_head) × (m'.msgq_tail ≡ m.msgq_tail)

t2_put-SameQueue : (bs : List ℕ) (m : Messages) → SameQueue m (t2_put bs m)
unfolding t2_put t2_put_byte SameQueue
t2_put-SameQueue [] m = (refl, refl)
t2_put-SameQueue (b ∷ bs) m = t2_put-SameQueue bs (t2_put_byte b m)

enqueue_line-Keeps :
    (text line : List ℕ) (m : Messages) → Keeps text m → Keeps text (enqueue_line line m)
unfolding enqueue_line
enqueue_line-Keeps text line m k = elim (Bool-cases (ltb (sub32 m.msgq_head m.msgq_tail) msgq_n)) [
  | inl free ↦ rw (free, enqueue_line) (record { head_ok = k.head_ok; kept = k.kept })
  | inr full ↦ rw (full, enqueue_line) k
]

-- What the queue does with a line.
Queued : List ℕ → Messages → Messages → Type 0
Queued line m m' =
    (m'.msgq_tail ≡ m.msgq_tail)
    × (m.msgq_head < m.msgq_tail + msgq_n
        → (m'.msgq_head ≡ m.msgq_head + 1) × (m'.msgq (m.msgq_head % msgq_n) ≡ line))
    × (m.msgq_tail + msgq_n ≤ m.msgq_head → m'.msgq_head ≡ m.msgq_head)

enqueue_line-Queued :
    (line : List ℕ) (m : Messages)
    → m.msgq_tail ≤ m.msgq_head
    → m.msgq_head + 1 < 4_294_967_296
    → Queued line m (enqueue_line line m)
unfolding enqueue_line Queued update
enqueue_line-Queued line m ordered small = ground arith

-- A message is added to the history whether or not the queue of four lines has room for it; it is
-- queued exactly if fewer than four lines wait; and a line is at most 119 bytes.
pub ble_msg-Keeps :
    (stamp : List ℕ → List ℕ) (text line : List ℕ) (m : Messages)
    → Keeps text m
    → 0 < length line
    → length text + 135 < 4_294_967_296
    → m.msgq_tail ≤ m.msgq_head
    → m.msgq_head + 1 < 4_294_967_296
    → let m' = ble_msg stamp line m in
      Keeps (text ++ take 135 (stamp (take 119 line))) m'
      × (m'.msgq_tail ≡ m.msgq_tail)
      × (m.msgq_head < m.msgq_tail + msgq_n
          → (m'.msgq_head ≡ m.msgq_head + 1) × (m'.msgq (m.msgq_head % msgq_n) ≡ take 119 line))
      × (m.msgq_tail + msgq_n ≤ m.msgq_head → m'.msgq_head ≡ m.msgq_head)
unfolding ble_msg t2_store Queued SameQueue
ble_msg-Keeps stamp text line m k some_text small ordered room =
    let shown = take 119 line in
    let bs = take 135 (stamp shown) in
    let kept = t2_put-Keeps bs text m k (omega (arith, length-take 135 (stamp shown))) in
    let same = t2_put-SameQueue bs m in
    let nonempty : (length line == 0) ≡ false = ground arith in
    let q =
      enqueue_line-Queued shown (t2_put bs m) (omega (arith, same.0, same.1))
        (omega (arith, same.0)) in
    rw nonempty (
      enqueue_line-Keeps (text ++ bs) shown (t2_put bs m) kept,
      q.0 ∙ same.1,
      λ free.
          let (a, b) = q.1 (omega (arith, same.0, same.1)) in
          (
            omega (arith, a, same.0),
            subst (λ h. (enqueue_line shown (t2_put bs m)).msgq (h % msgq_n) ≡ shown) same.0 b,
          ),
      λ full. q.2 (omega (arith, same.0, same.1)) ∙ same.0,
    )
