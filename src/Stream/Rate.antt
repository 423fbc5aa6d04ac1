-- ===== src/Stream/Rate.antt =====
-- The rate of the live stream: decimation and adaptation in src/ble/ble_transport.c.
use native.Mathlib.Nat.{
  div-mul-le_self, lt-div-mul-add, div-lt_iff_lt-mul, mul-le-mul_right, mul-le-mul, one-le-mul,
  pow-le-pow_right,
}
use moamoa_caterpillar_firmw.Base.{
  ℕ, zero, suc, ◌+◌, ◌-◌, ◌*◌, ◌/◌, ◌%◌, ◌^◌, ◌≤◌, ◌<◌, ◌≡◌, ◌⊎◌, inl, inr, refl, Bool, true, false,
  List, [], ◌∷◌, clamp, arith, ◌∙◌, ap, subst,
}
use moamoa_caterpillar_firmw.Imu.Shared.{Sample}
use moamoa_caterpillar_firmw.Stream.{
  Stream, rate_target, ble_odr_hz, update_decim, back_off, calm_down, stream_adapt_tick,
  stage_sample, sink_one, sink_all, stream_sink, stream_decim_eff,
}

rate_target-positive :
    (logging : Bool) (preview : ℕ)
    → (0 < rate_target logging preview) × (rate_target logging preview ≤ 1300)
unfolding rate_target
rate_target-positive true preview = ground arith
rate_target-positive false preview = ground arith

pred_mul : (q t : ℕ) → 1 ≤ q → (q - 1) * t + t ≡ q * t
pred_mul zero t h = absurd (omega arith)
pred_mul (suc q) t h = ap (λ k. k * t + t) {y = q} (omega arith) ∙ omega arith

-- The rounded-up quotient, kept in 1..255, as a divisor of the rate.
quotient_fits :
    (hz t : ℕ)
    → 0 < t
    → let d = clamp ((hz + t - 1) / t) 1 255 in
      (1 ≤ d) × (d ≤ 255) × (hz ≤ 255 * t → hz ≤ d * t) × ((d ≡ 1) ⊎ ((d - 1) * t < hz))
quotient_fits hz t h = let q = (hz + t - 1) / t in (omega arith, omega arith, fits, least)
  where
    q : ℕ
    q = (hz + t - 1) / t

    small_or_large : (1 ≤ q) × (q ≤ 255) ⊎ (q ≡ 0) ⊎ (256 ≤ q)
    small_or_large = omega arith

    at_one : q ≡ 0 → hz ≡ 0
    at_one e = omega (arith, lt-div-mul-add {a = hz + t - 1} h, ap (λ k. k * t) e)

    fits : hz ≤ 255 * t → hz ≤ clamp q 1 255 * t
    fits room = elim small_or_large [
      | inl (lo, hi) ↦
          subst (λ d. hz ≤ d * t) {x = q} (omega (arith, lo, hi))
            (omega (arith, lt-div-mul-add {a = hz + t - 1} h))
      | inr (inl e) ↦ omega (arith, at_one e)
      | inr (inr big) ↦ absurd (
          omega
            (arith, big, (div-lt_iff_lt-mul {x = hz + t - 1} {y = 256} h).1 (omega (arith, room))))
    ]

    least : (clamp q 1 255 ≡ 1) ⊎ ((clamp q 1 255 - 1) * t < hz)
    least = elim small_or_large [
      | inl (lo, hi) ↦ inr (
          subst (λ d. (d - 1) * t < hz) {x = q} (omega (arith, lo, hi))
            (omega (arith, div-mul-le_self (hz + t - 1) t, pred_mul q t lo)))
      | inr (inl e) ↦ inl (omega (arith, e))
      | inr (inr big) ↦ inr (
          subst (λ d. (d - 1) * t < hz) {x = 255} (omega (arith, big))
            (omega (arith, div-mul-le_self (hz + t - 1) t, mul-le-mul_right t big)))
    ]

-- `ble_transport_stream_update_decim` picks a divisor in 1..255. If the budget allows it with such a
-- divisor at all, then one sample in `decim` of the sensor's rate is within the budget, and no
-- smaller divisor would do.
pub update_decim-paces :
    (cfg_odr now : ℕ) (logging : Bool) (s : Stream)
    → let hz = ble_odr_hz cfg_odr in
      let target = rate_target logging s.preview_hz in
      let d = (update_decim cfg_odr logging now s).decim in
      (1 ≤ d)
      × (d ≤ 255)
      × (hz ≤ 255 * target → hz ≤ d * target)
      × ((d ≡ 1) ⊎ ((d - 1) * target < hz))
unfolding update_decim
update_decim-paces cfg_odr now logging s =
    quotient_fits (ble_odr_hz cfg_odr) (rate_target logging s.preview_hz)
      (rate_target-positive logging s.preview_hz).0

-- What keeps the sink's divisor away from zero and the adaptation within its limits.
pub record RateOk (s : Stream) : Type 0 where
  pub decim_low : 1 ≤ s.decim
  pub decim_high : s.decim ≤ 255
  pub adapt_high : s.adapt ≤ 4
  pub need_low : 5 ≤ s.calm_need
  pub need_high : s.calm_need ≤ 30
  pub need_step : s.calm_need % 5 ≡ 0

-- The statics that the rate depends on.
SameRate : Stream → Stream → Type 0
SameRate s s' = (s'.decim ≡ s.decim) × (s'.adapt ≡ s.adapt) × (s'.calm_need ≡ s.calm_need)

stage_sample-SameRate : (now : ℕ) (x : Sample) (s : Stream) → SameRate s (stage_sample now x s)
unfolding stage_sample SameRate
stage_sample-SameRate now x s = ground arith

sink_one-SameRate : (decim now : ℕ) (x : Sample) (s : Stream) → SameRate s (sink_one decim now x s)
unfolding sink_one SameRate stage_sample
sink_one-SameRate decim now x s = ground arith

sink_all-SameRate :
    (decim now : ℕ) (xs : List Sample) (s : Stream) → SameRate s (sink_all decim now xs s)
unfolding sink_all SameRate
sink_all-SameRate decim now [] s = (refl, refl, refl)
sink_all-SameRate decim now (x ∷ xs) s =
    let p = sink_one-SameRate decim now x s in
    let q = sink_all-SameRate decim now xs (sink_one decim now x s) in
    (q.0 ∙ p.0, q.1 ∙ p.1, q.2 ∙ p.2)

SameRate-RateOk : (s s' : Stream) → SameRate s s' → RateOk s → RateOk s'
unfolding SameRate
SameRate-RateOk s s' e r = record {
  decim_low = omega (arith, r.decim_low, e.0);
  decim_high = omega (arith, r.decim_high, e.0);
  adapt_high = omega (arith, r.adapt_high, e.1);
  need_low = omega (arith, r.need_low, e.2);
  need_high = omega (arith, r.need_high, e.2);
  need_step = omega (arith, r.need_step, e.2);
}

adapt_tick-decim : (now : ℕ) (s : Stream) → (stream_adapt_tick now s).decim ≡ s.decim
unfolding stream_adapt_tick back_off calm_down
adapt_tick-decim now s = ground arith

adapt_tick-adapt : (now : ℕ) (s : Stream) → s.adapt ≤ 4 → (stream_adapt_tick now s).adapt ≤ 4
unfolding stream_adapt_tick back_off calm_down
adapt_tick-adapt now s h = ground arith

adapt_tick-need :
    (now : ℕ) (s : Stream)
    → 5 ≤ s.calm_need
    → s.calm_need ≤ 30
    → s.calm_need % 5 ≡ 0
    → let n = (stream_adapt_tick now s).calm_need in (5 ≤ n) × (n ≤ 30) × (n % 5 ≡ 0)
unfolding stream_adapt_tick back_off calm_down
adapt_tick-need now s h k m = ground arith

pub adapt_tick-RateOk : (now : ℕ) (s : Stream) → RateOk s → RateOk (stream_adapt_tick now s)
adapt_tick-RateOk now s r =
    let (lo, hi, step) = adapt_tick-need now s r.need_low r.need_high r.need_step in
    record {
      decim_low = omega (arith, r.decim_low, adapt_tick-decim now s);
      decim_high = omega (arith, r.decim_high, adapt_tick-decim now s);
      adapt_high = adapt_tick-adapt now s r.adapt_high;
      need_low = lo;
      need_high = hi;
      need_step = step;
    }

-- The sink, whatever samples it is handed, keeps the divisor in 1..255, the adaptation at most 4
-- and the calm that a probe needs a multiple of 5 in 5..30.
pub stream_sink-RateOk :
    (now : ℕ) (xs : List Sample) (s : Stream) → RateOk s → RateOk (stream_sink now xs s)
unfolding stream_sink
stream_sink-RateOk now xs s r =
    adapt_tick-RateOk now _
      (SameRate-RateOk s _ (sink_all-SameRate (stream_decim_eff s) now xs s) r)

pub update_decim-RateOk :
    (cfg_odr now : ℕ) (logging : Bool) (s : Stream) → RateOk (update_decim cfg_odr logging now s)
unfolding update_decim
update_decim-RateOk cfg_odr now logging s = record {
  decim_low = (update_decim-paces cfg_odr now logging s).0;
  decim_high = (update_decim-paces cfg_odr now logging s).1;
  adapt_high = omega arith;
  need_low = omega arith;
  need_high = omega arith;
  need_step = refl;
}

power_cases : (a : ℕ) → a ≤ 4 → (1 ≤ 2 ^ a) × (2 ^ a ≤ 16)
power_cases a h = (
  pow-le-pow_right {n = 2} (omega arith) {i = 0} {j = a} (omega arith),
  pow-le-pow_right {n = 2} (omega arith) {i = a} {j = 4} h,
)

-- In such a state `stream_decim_eff` is in 1..255, so the sink's `%` has a divisor, and it is the
-- divisor times 2 ^ adapt unless that is cut to 255.
pub stream_decim_eff-bounds :
    (s : Stream)
    → RateOk s
    → (1 ≤ stream_decim_eff s)
      × (stream_decim_eff s ≤ 255)
      × (s.decim * 2 ^ s.adapt ≤ 255 → stream_decim_eff s ≡ s.decim * 2 ^ s.adapt)
unfolding stream_decim_eff
stream_decim_eff-bounds s r =
    let (low, high) = power_cases s.adapt r.adapt_high in
    let positive = one-le-mul r.decim_low low in
    let bounded = mul-le-mul r.decim_high high in
    (omega (arith, positive, bounded), omega arith, λ h. omega (arith, h))
