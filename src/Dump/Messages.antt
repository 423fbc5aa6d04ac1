-- ===== src/Dump/Messages.antt =====
-- src/ble/ble_transport.c: message lines, their queue and their history ring. The text that
-- `snprintf` makes of a line and the uptime is a parameter.
use moamoa_caterpillar_firmw.Base.{
  ℕ, ◌+◌, ◌%◌, List, [], ◌∷◌, if◌then◌else◌, ltb, ◌==◌, min, u32, sub32, length, take, tabulate,
}
use moamoa_caterpillar_firmw.Imu.Shared.{update}

abbrev pub t2_ring_size : ℕ
t2_ring_size = 2048

abbrev pub msgq_n : ℕ
msgq_n = 4

abbrev pub msg_len : ℕ
msg_len = 120

-- The rings are functions of the index, which is always below their size.
pub record Messages : Type 0 where
  pub t2_ring : ℕ → ℕ
  pub t2_head : ℕ
  pub msgq : ℕ → List ℕ
  pub msgq_head : ℕ
  pub msgq_tail : ℕ

-- The loop of `t2_store`.
unfoldable pub t2_put_byte : ℕ → Messages → Messages
t2_put_byte b m = record m {
  t2_ring = update m.t2_ring (m.t2_head % t2_ring_size) b;
  t2_head = u32 (m.t2_head + 1);
}

unfoldable pub t2_put : List ℕ → Messages → Messages
unfolding t2_put_byte
t2_put [] m = m
t2_put (b ∷ bs) m = t2_put bs (t2_put_byte b m)

-- `t2_store`; `stamped` is 136 bytes, of which one is for the NUL.
unfoldable pub t2_store : (List ℕ → List ℕ) → List ℕ → Messages → Messages
unfolding t2_put
t2_store stamp line m = t2_put (take 135 (stamp line)) m

unfoldable pub t2_snapshot : ℕ → Messages → List ℕ
t2_snapshot most m =
    let used = min (min m.t2_head t2_ring_size) most in
    let start = sub32 m.t2_head used in
    tabulate (λ i. m.t2_ring (u32 (start + i) % t2_ring_size)) 0 used

-- The queue of `ble_msg`: a line for which there is no room is left out.
unfoldable pub enqueue_line : List ℕ → Messages → Messages
enqueue_line line m =
    if ltb (sub32 m.msgq_head m.msgq_tail) msgq_n
    then record m {
      msgq = update m.msgq (m.msgq_head % msgq_n) line;
      msgq_head = u32 (m.msgq_head + 1);
    }
    else m

-- `ble_msg`, for what `vsnprintf` makes of its arguments; `line` has room for 119 bytes of it.
unfoldable pub ble_msg : (List ℕ → List ℕ) → List ℕ → Messages → Messages
unfolding t2_store enqueue_line
ble_msg stamp text m =
    if length text == 0 then m else enqueue_line (take 119 text) (t2_store stamp (take 119 text) m)

-- A round of the message loop of `tx_thread`: the line that is sent, and the tail behind it.
unfoldable pub next_message : Messages → List ℕ × Messages
next_message m = (m.msgq (m.msgq_tail % msgq_n), record m { msgq_tail = u32 (m.msgq_tail + 1) })
