-- ===== src/Stream/Resubscribe.antt =====
-- `ble_transport_stream_enable` of src/ble/ble_transport.c while the stream was used before.
use moamoa_caterpillar_firmw.Base.{
  ℕ, ◌+◌, ◌-◌, ◌≤◌, ◌<◌, ◌≡◌, refl, Bool, true, arith, u32, sub32, [], ap,
}
use moamoa_caterpillar_firmw.Imu.Shared.{Sample}
use moamoa_caterpillar_firmw.Stream.{
  Stream, update_decim, back_off, stream_adapt_tick, stage_sample, stream_enable, packet_size,
  packet_done, sfifo_n, packet_samples, stream_max_samples,
}
use moamoa_caterpillar_firmw.Stream.Fifo.{FifoOk, queued}
use moamoa_caterpillar_firmw.Stream.Sender.{packet_size-bounds}
use moamoa_caterpillar_firmw.Stream.Rate.{RateOk, update_decim-RateOk}

-- A subscription empties the FIFO, clears the drop counter, and is within the limits of the rate.
pub stream_enable-fresh :
    (cfg_odr now : ℕ) (logging : Bool) (s : Stream)
    → s.sfifo_head < 4_294_967_296
    → let s' = stream_enable cfg_odr logging now true s in
      FifoOk s' × (queued s' ≡ []) × (s'.dropped ≡ 0) × RateOk s' × (s'.sink_on ≡ true)
unfolding stream_enable update_decim packet_samples
stream_enable-fresh cfg_odr now logging s h = (
  record { ordered = omega arith; no_wrap = h; bounded = omega arith; dropped_fits = omega arith },
  empty,
  refl,
  record {
    decim_low = rate.decim_low;
    decim_high = rate.decim_high;
    adapt_high = rate.adapt_high;
    need_low = rate.need_low;
    need_high = rate.need_high;
    need_step = rate.need_step;
  },
  refl,
)
  where
    cleared : Stream
    cleared = record s {
      sfifo_tail = s.sfifo_head;
      sample_ctr = 0;
      dropped = 0;
      stream_max = stream_max_samples;
    }

    rate : RateOk (update_decim cfg_odr logging now cleared)
    rate = update_decim-RateOk cfg_odr now logging cleared

    empty : queued (stream_enable cfg_odr logging now true s) ≡ []
    empty =
        ap (λ k. packet_samples k (stream_enable cfg_odr logging now true s)) {y = 0} (omega arith)

-- A second subscription backs off without a cause: when drops were counted during an earlier one,
-- the first window of the new one halves the preview's rate although no sample was dropped in it,
-- for the counter was cleared but not the count that it is compared with.
pub resubscribe-backs_off :
    (cfg_odr start now : ℕ) (logging : Bool) (s : Stream)
    → 0 < s.last_dropped
    → s.last_dropped < 4_294_967_286
    → start + 1000 ≤ now
    → let s' = stream_enable cfg_odr logging start true s in
      (s'.dropped ≡ 0) × (s'.adapt ≡ 0) × ((stream_adapt_tick now s').adapt ≡ 1)
unfolding stream_enable update_decim stream_adapt_tick back_off
resubscribe-backs_off cfg_odr start now logging s low high late = ground arith

overfull :
    (now : ℕ) (x : Sample) (s : Stream)
    → sfifo_n ≤ sub32 s.sfifo_head s.sfifo_tail
    → stage_sample now x s ≡ record s { dropped = u32 (s.dropped + 1) }
unfolding stage_sample
overfull now x s h = ground arith

-- A subscription while a packet is on its way breaks the FIFO: when the sender is done with the
-- packet, it moves the tail past the head, so 2 ^ 32 less the packet's samples seem to be staged,
-- and the sink drops each sample that it picks.
pub resubscribe-overtakes :
    (cfg_odr start now : ℕ) (logging sent : Bool) (x : Sample) (s : Stream)
    → FifoOk s
    → 0 < packet_size now s
    → let n = packet_size now s in
      let s' = packet_done now n sent (stream_enable cfg_odr logging start true s) in
      (sub32 s'.sfifo_head s'.sfifo_tail ≡ 4_294_967_296 - n)
      × (stage_sample now x s' ≡ record s' { dropped = u32 (s'.dropped + 1) })
unfolding stream_enable update_decim packet_done stage_sample
resubscribe-overtakes cfg_odr start now logging sent x s v more =
    let (fits, most) = packet_size-bounds now s v in
    let n = packet_size now s in
    let e : sub32 s.sfifo_head (u32 (s.sfifo_head + n)) ≡ 4_294_967_296 - n =
      omega (arith, fits, more, v.bounded, v.no_wrap) in
    (e, overfull now x _ (omega (arith, e, fits, v.bounded, v.no_wrap)))
