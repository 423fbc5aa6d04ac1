-- ===== src/Stream/Sender.antt =====
-- The stream loop of `tx_thread` in src/ble/ble_transport.c: what a packet holds.
use moamoa_caterpillar_firmw.Base.{
  ℕ, ◌+◌, ◌-◌, ◌*◌, ◌%◌, ◌≤◌, ◌<◌, ◌≡◌, ap, ◌∙◌, Bool, ◌++◌, arith, length, length-tabulate,
  tabulate-ext, tabulate-add, min, u32, sub32,
}
use moamoa_caterpillar_firmw.Log.Contents.{length-batch_bytes}
use moamoa_caterpillar_firmw.Stream.{
  Stream, sfifo_n, packet_size, packet_samples, packet_bytes, packet_done,
}
use moamoa_caterpillar_firmw.Stream.Fifo.{queued, FifoOk}

pub packet_size-bounds :
    (now : ℕ) (s : Stream)
    → FifoOk s
    → (packet_size now s ≤ s.sfifo_head - s.sfifo_tail) × (packet_size now s ≤ s.stream_max)
unfolding packet_size
packet_size-bounds now s v = ground (arith, v.ordered, v.no_wrap)

-- A packet that waits for nothing.
packet_size-due :
    (now : ℕ) (s : Stream)
    → FifoOk s
    → 0 < s.stream_max
    → s.sfifo_ts + 100 ≤ now
    → packet_size now s ≡ min (s.sfifo_head - s.sfifo_tail) s.stream_max
unfolding packet_size
packet_size-due now s v some old = ground (arith, v.ordered, v.no_wrap)

packet_samples-split :
    (n m : ℕ) (now : ℕ) (sent : Bool) (s : Stream)
    → s.sfifo_tail + n < 4_294_967_296
    → packet_samples (n + m) s ≡ packet_samples n s ++ packet_samples m (packet_done now n sent s)
unfolding packet_samples packet_done
packet_samples-split n m now sent s small =
    tabulate-add _ 0 n m
    ∙ ap (λ t. packet_samples n s ++ t)
        (tabulate-ext (λ k. s.sfifo (u32 (s.sfifo_tail + k) % sfifo_n))
          (λ k. s.sfifo (u32 (u32 (s.sfifo_tail + n) + k) % sfifo_n)) (0 + n) 0 m
          (λ j p.
            ap (λ t. s.sfifo (u32 t % sfifo_n)) {x = s.sfifo_tail + (0 + n + j)}
              {y = u32 (s.sfifo_tail + n) + (0 + j)} (omega arith)))

packet_done-FifoOk :
    (now n : ℕ) (sent : Bool) (s : Stream)
    → FifoOk s
    → n ≤ s.sfifo_head - s.sfifo_tail
    → FifoOk (packet_done now n sent s)
unfolding packet_done
packet_done-FifoOk now n sent s v fits = record {
  ordered = omega (arith, v.ordered, v.no_wrap);
  no_wrap = v.no_wrap;
  bounded = omega (arith, v.ordered, v.no_wrap, v.bounded);
  dropped_fits = ground (arith, v.dropped_fits);
}

packet_done-length :
    (now n : ℕ) (sent : Bool) (s : Stream)
    → FifoOk s
    → n ≤ s.sfifo_head - s.sfifo_tail
    → let s' = packet_done now n sent s in
      sub32 s.sfifo_head s.sfifo_tail ≡ n + sub32 s'.sfifo_head s'.sfifo_tail
unfolding packet_done
packet_done-length now n sent s v fits = omega (arith, v.ordered, v.no_wrap)

length-packet_bytes : (n : ℕ) (s : Stream) → length (packet_bytes n s) ≡ 8 + 16 * n
unfolding packet_bytes packet_samples
length-packet_bytes n s = omega (
  arith,
  length-batch_bytes (packet_samples n s),
  length-tabulate (λ k. s.sfifo (u32 (s.sfifo_tail + k) % sfifo_n)) 0 n,
)

-- A round of the sender: the packet takes at most `stream_max` samples off the front of the FIFO
-- and leaves the others in it, whether it is sent or not; it is 8 bytes and 16 for each sample; and
-- 100 ms after the last packet, or after the FIFO ceased to be empty, as much as fits goes out.
pub packet-takes_front :
    (now : ℕ) (sent : Bool) (s : Stream)
    → FifoOk s
    → let n = packet_size now s in
      let s' = packet_done now n sent s in
      (queued s ≡ packet_samples n s ++ queued s')
      × (n ≤ s.stream_max)
      × (length (packet_bytes n s) ≡ 8 + 16 * n)
      × FifoOk s'
      × (0 < s.stream_max
          → s.sfifo_ts + 100 ≤ now
          → n ≡ min (s.sfifo_head - s.sfifo_tail) s.stream_max)
packet-takes_front now sent s v =
    let n = packet_size now s in
    let (fits, most) = packet_size-bounds now s v in
    let s' = packet_done now n sent s in
    (
      ap (λ k. packet_samples k s) (packet_done-length now n sent s v fits)
          ∙ packet_samples-split n (sub32 s'.sfifo_head s'.sfifo_tail) now sent s
              (omega (arith, v.ordered, v.no_wrap)),
      most,
      length-packet_bytes n s,
      packet_done-FifoOk now n sent s v fits,
      λ some old. packet_size-due now s v some old,
    )
