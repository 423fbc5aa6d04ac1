-- ===== src/Stream.antt =====
-- The live stream: the first half of src/ble/ble_transport.c.
pub mod Fifo
pub mod Rate
pub mod Sender
pub mod Resubscribe
pub mod Tests
use moamoa_caterpillar_firmw.Base.{
  ℕ, ◌+◌, ◌-◌, ◌*◌, ◌/◌, ◌%◌, ◌^◌, Bool, true, false, not, ◌&&◌, List, [], ◌∷◌, ◌++◌, Option, none,
  some, ltb, leb, ◌==◌, if◌then◌else◌, get_or, u8, u16, u32, sub32, clamp, min, tabulate, le32,
}
use moamoa_caterpillar_firmw.Imu.Shared.{Sample, update, sample_bytes}
use moamoa_caterpillar_firmw.Log.Writer.{batch_bytes}

abbrev pub odr_hz_tab : List ℕ
odr_hz_tab = 0 ∷ 13 ∷ 26 ∷ 52 ∷ 104 ∷ 208 ∷ 416 ∷ 833 ∷ 1660 ∷ 3330 ∷ 6660 ∷ []

unfoldable pub ble_odr_hz : ℕ → ℕ
ble_odr_hz odr_code = if leb odr_code 10 then get_or odr_hz_tab odr_code 0 else 0

abbrev pub stream_budget_sps : ℕ
stream_budget_sps = 1300

abbrev pub stream_budget_log_sps : ℕ
stream_budget_log_sps = 500

abbrev pub sfifo_n : ℕ
sfifo_n = 256

abbrev pub stream_max_samples : ℕ
stream_max_samples = 14

-- The statics of the stream. Uptimes are in milliseconds. `last_probe` is `none` for INT64_MIN / 2,
-- which lies more than ten seconds back at any uptime. The FIFO is a function of the index, which
-- is always below SFIFO_N.
pub record Stream : Type 0 where
  pub decim : ℕ
  pub preview_hz : ℕ
  pub adapt : ℕ
  pub calm : ℕ
  pub calm_need : ℕ
  pub last_dropped : ℕ
  pub win_start : ℕ
  pub last_probe : Option ℕ
  pub sfifo : ℕ → Sample
  pub sfifo_head : ℕ
  pub sfifo_tail : ℕ
  pub stream_max : ℕ
  pub sample_ctr : ℕ
  pub dropped : ℕ
  pub sfifo_ts : ℕ
  pub sink_on : Bool  -- the sink that the pump has

-- `stream_decim_eff`
unfoldable pub stream_decim_eff : Stream → ℕ
stream_decim_eff s = min (u32 (s.decim * 2 ^ s.adapt)) 255

-- The samples per second that the stream may carry.
unfoldable pub rate_target : Bool → ℕ → ℕ
rate_target logging preview =
    let budget = if logging then stream_budget_log_sps else stream_budget_sps in
    if not (preview == 0) && ltb preview budget then preview else budget

-- `ble_transport_stream_update_decim`, with the configured rate code, whether a log session is
-- active, and the uptime.
unfoldable pub update_decim : ℕ → Bool → ℕ → Stream → Stream
unfolding rate_target ble_odr_hz
update_decim cfg_odr logging now s =
    let target = rate_target logging s.preview_hz in
    let d = (ble_odr_hz cfg_odr + target - 1) / target in
    record s {
      decim = clamp d 1 255;
      adapt = 0;
      calm = 0;
      calm_need = 5;
      last_probe = none;
      win_start = now;
    }

unfoldable pub ble_stream_set_preview : ℕ → Bool → ℕ → ℕ → Stream → Stream
unfolding update_decim
ble_stream_set_preview cfg_odr logging now hz s =
    update_decim cfg_odr logging now (record s { preview_hz = hz })

-- `now - adapt_last_probe < 10000`
abbrev pub probed_lately : Option ℕ → ℕ → Bool
probed_lately none now = false
probed_lately (some at) now = ltb now (at + 10_000)

-- The cases of `stream_adapt_tick` behind the window: many drops, none, and a few.
unfoldable pub back_off : ℕ → Stream → Stream
back_off now s = record s {
  adapt = if ltb s.adapt 4 then u8 (s.adapt + 1) else s.adapt;
  calm_need =
      if probed_lately s.last_probe now && ltb s.calm_need 30
      then u8 (s.calm_need + 5)
      else s.calm_need;
  calm = 0;
}

unfoldable pub calm_down : ℕ → Stream → Stream
calm_down now s =
    let calm' = u8 (s.calm + 1) in
    if leb s.calm_need calm' && ltb 0 s.adapt
    then record s { adapt = s.adapt - 1; last_probe = some now; calm = 0 }
    else record s { calm = calm' }

unfoldable pub stream_adapt_tick : ℕ → Stream → Stream
unfolding back_off calm_down
stream_adapt_tick now s =
    if ltb now (s.win_start + 1000)
    then s
    else (let drops = sub32 s.dropped s.last_dropped in
        let s1 = record s { win_start = now; last_dropped = s.dropped } in
        if ltb 10 drops
        then back_off now s1
        else (if drops == 0 then calm_down now s1 else record s1 { calm = 0 }))

-- One round of the loop of `stream_sink`. `sfifo_head & (SFIFO_N - 1)` is `sfifo_head % 256`.
unfoldable pub stage_sample : ℕ → Sample → Stream → Stream
stage_sample now x s =
    if leb sfifo_n (sub32 s.sfifo_head s.sfifo_tail)
    then record s { dropped = u32 (s.dropped + 1) }
    else record s {
      sfifo_ts = if s.sfifo_head == s.sfifo_tail then now else s.sfifo_ts;
      sfifo = update s.sfifo (s.sfifo_head % sfifo_n) x;
      sfifo_head = u32 (s.sfifo_head + 1);
    }

unfoldable pub sink_one : ℕ → ℕ → Sample → Stream → Stream
unfolding stage_sample
sink_one decim now x s =
    let s1 = record s { sample_ctr = u32 (s.sample_ctr + 1) } in
    if s.sample_ctr % decim == 0 then stage_sample now x s1 else s1

unfoldable pub sink_all : ℕ → ℕ → List Sample → Stream → Stream
sink_all decim now [] s = s
sink_all decim now (x ∷ xs) s = sink_all decim now xs (sink_one decim now x s)

unfoldable pub stream_sink : ℕ → List Sample → Stream → Stream
unfolding sink_all sink_one stream_decim_eff stream_adapt_tick
stream_sink now xs s = stream_adapt_tick now (sink_all (stream_decim_eff s) now xs s)

-- `ble_transport_stream_enable`
unfoldable pub stream_enable : ℕ → Bool → ℕ → Bool → Stream → Stream
unfolding update_decim
stream_enable cfg_odr logging now true s =
    record (update_decim cfg_odr logging now (record s {
      sfifo_tail = s.sfifo_head;
      sample_ctr = 0;
      dropped = 0;
      stream_max = stream_max_samples;
    })) { sink_on = true }
stream_enable cfg_odr logging now false s = record s { sink_on = false }

-- The packet of the stream loop of `tx_thread`: how many samples go, and the bytes.
unfoldable pub packet_size : ℕ → Stream → ℕ
packet_size now s =
    let avail = sub32 s.sfifo_head s.sfifo_tail in
    if avail == 0
    then 0
    else (if ltb avail s.stream_max && ltb now (s.sfifo_ts + 100)
        then 0
        else min avail s.stream_max)

unfoldable pub packet_samples : ℕ → Stream → List Sample
packet_samples n s = tabulate (λ k. s.sfifo (u32 (s.sfifo_tail + k) % sfifo_n)) 0 n

unfoldable pub packet_bytes : ℕ → Stream → List ℕ
unfolding packet_samples stream_decim_eff
packet_bytes n s =
    (n ∷ stream_decim_eff s ∷ 0 ∷ 0 ∷ le32 s.dropped) ++ batch_bytes (packet_samples n s)

-- What follows the call of `tx_notify`, which returns whether the packet was sent.
unfoldable pub packet_done : ℕ → ℕ → Bool → Stream → Stream
packet_done now n sent s = record s {
  dropped = if sent then s.dropped else u32 (s.dropped + n);
  sfifo_tail = u32 (s.sfifo_tail + n);
  sfifo_ts = now;
}
