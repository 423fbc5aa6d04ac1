-- ===== src/Stream/Tests.antt =====
-- Runs of the live stream: src/ble/ble_transport.c.
use moamoa_caterpillar_firmw.Base.{
  ◌+◌, ◌-◌, ◌*◌, ◌≤◌, ◌<◌, ◌≡◌, ◌⊎◌, refl, false, true, some, [], ◌∷◌, arith, u32, sub32,
}
use moamoa_caterpillar_firmw.Imu.Shared.{Sample, zero_sample}
use moamoa_caterpillar_firmw.Stream.{
  Stream, ble_odr_hz, rate_target, update_decim, sink_all, stream_enable, packet_size, packet_done,
  stage_sample,
}
use moamoa_caterpillar_firmw.Stream.Rate.{RateOk, update_decim-paces}
use moamoa_caterpillar_firmw.Stream.Fifo.{FifoOk, picked, Sunk, sink_all-Sunk}
use moamoa_caterpillar_firmw.Stream.Resubscribe.{resubscribe-overtakes}

abbrev first : Sample
first = record zero_sample { ax = 5; seq16 = 1 }

abbrev second : Sample
second = record zero_sample { gz = 7; seq16 = 2 }

-- A running stream with one sample staged, that has dropped twenty.
abbrev pub running : Stream
running = record {
  decim = 2;
  preview_hz = 0;
  adapt = 1;
  calm = 0;
  calm_need = 10;
  last_dropped = 20;
  win_start = 0;
  last_probe = some 900;
  sfifo = λ i. first;
  sfifo_head = 1;
  sfifo_tail = 0;
  stream_max = 14;
  sample_ctr = 4;
  dropped = 20;
  sfifo_ts = 0;
  sink_on = true;
}

running-RateOk : RateOk running
running-RateOk = record {
  decim_low = omega arith;
  decim_high = omega arith;
  adapt_high = omega arith;
  need_low = omega arith;
  need_high = omega arith;
  need_step = refl;
}

running-FifoOk : FifoOk running
running-FifoOk = record {
  ordered = omega arith;
  no_wrap = omega arith;
  bounded = omega arith;
  dropped_fits = omega arith;
}

update_decim-paces_example :
    let d = (update_decim 10 false 5 running).decim in
    (1 ≤ d)
    × (d ≤ 255)
    × (6660 ≤ 255 * rate_target false 0 → 6660 ≤ d * rate_target false 0)
    × ((d ≡ 1) ⊎ ((d - 1) * rate_target false 0 < 6660))
unfolding ble_odr_hz
update_decim-paces_example = update_decim-paces 10 5 false running

sink_all-Sunk_example :
    Sunk running (picked 4 4 (first ∷ second ∷ [])) (sink_all 4 2000 (first ∷ second ∷ []) running)
sink_all-Sunk_example =
    sink_all-Sunk 4 2000 (first ∷ second ∷ []) running running-FifoOk (omega arith)

due : 0 < packet_size 3000 running
unfolding packet_size
due = omega arith

resubscribe-overtakes_example :
    let n = packet_size 3000 running in
    let s' = packet_done 3000 n true (stream_enable 7 false 3000 true running) in
    (sub32 s'.sfifo_head s'.sfifo_tail ≡ 4_294_967_296 - n)
    × (stage_sample 3000 first s' ≡ record s' { dropped = u32 (s'.dropped + 1) })
resubscribe-overtakes_example =
    resubscribe-overtakes 7 3000 3000 false true first running running-FifoOk due
