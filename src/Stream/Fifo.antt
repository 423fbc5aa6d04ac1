-- ===== src/Stream/Fifo.antt =====
-- The sample FIFO between the sink and the sender in src/ble/ble_transport.c, as a bounded queue.
use moamoa_caterpillar_firmw.Base.{
  ℕ, suc, ◌+◌, ◌-◌, ◌%◌, ◌≤◌, ◌<◌, ◌≡◌, ◌≢◌, refl, ap, ap₂, sym, subst, ◌∙◌, ◌⊎◌, inl, inr, true,
  false, Bool-cases, List, [], ◌∷◌, ◌++◌, append-nil, append_assoc, arith, length, ◌==◌,
  if◌then◌else◌, take, take-nil, tabulate-ext, tabulate-add, u32, sub32,
}
use moamoa_caterpillar_firmw.Imu.Shared.{Sample, update}
use moamoa_caterpillar_firmw.Stream.{
  Stream, sfifo_n, stage_sample, sink_one, sink_all, packet_samples,
}

-- The samples in the FIFO, oldest first.
abbrev pub queued : Stream → List Sample
queued s = packet_samples (sub32 s.sfifo_head s.sfifo_tail) s

pub record FifoOk (s : Stream) : Type 0 where
  pub ordered : s.sfifo_tail ≤ s.sfifo_head
  pub no_wrap : s.sfifo_head < 4_294_967_296
  pub bounded : s.sfifo_head ≤ s.sfifo_tail + sfifo_n
  pub dropped_fits : s.dropped < 4_294_967_296

-- The samples that decimation picks, for the counter's value.
unfoldable pub picked : ℕ → ℕ → List Sample → List Sample
picked decim ctr [] = []
picked decim ctr (x ∷ xs) =
    let rest = picked decim (u32 (ctr + 1)) xs in if ctr % decim == 0 then x ∷ rest else rest

abbrev pub room : Stream → ℕ
room s = sfifo_n - (s.sfifo_head - s.sfifo_tail)

pub record Sunk (s : Stream) (xs : List Sample) (s' : Stream) : Type 0 where
  pub ok : FifoOk s'
  pub queue : queued s' ≡ queued s ++ take (room s) xs
  pub dropped : s'.dropped ≡ u32 (s.dropped + (length xs - room s))
  pub tail_same : s'.sfifo_tail ≡ s.sfifo_tail

update_ne : (f : ℕ → Sample) (i j : ℕ) (x : Sample) → i ≢ j → update f i x j ≡ f j
unfolding update
update_ne f i j x h = ground arith

update_self : (f : ℕ → Sample) (i j : ℕ) (x : Sample) → i ≡ j → update f i x j ≡ x
unfolding update
update_self f i j x h = ground arith

-- A state that has the given sample behind the others.
staged_one : ℕ → Sample → Stream → Stream
staged_one now x s = record s {
  sfifo_ts = if s.sfifo_head == s.sfifo_tail then now else s.sfifo_ts;
  sfifo = update s.sfifo (s.sfifo_head % sfifo_n) x;
  sfifo_head = u32 (s.sfifo_head + 1);
}

stage_sample-full :
    (now : ℕ) (x : Sample) (s : Stream)
    → FifoOk s
    → s.sfifo_head ≡ s.sfifo_tail + sfifo_n
    → stage_sample now x s ≡ record s { dropped = u32 (s.dropped + 1) }
unfolding stage_sample
stage_sample-full now x s v e = ground (arith, v.no_wrap)

stage_sample-room :
    (now : ℕ) (x : Sample) (s : Stream)
    → FifoOk s
    → s.sfifo_head < s.sfifo_tail + sfifo_n
    → stage_sample now x s ≡ staged_one now x s
unfolding stage_sample staged_one
stage_sample-room now x s v e = ground (arith, v.no_wrap, v.ordered)

queued-push :
    (now : ℕ) (x : Sample) (s : Stream)
    → FifoOk s
    → s.sfifo_head < s.sfifo_tail + sfifo_n
    → s.sfifo_head + 1 < 4_294_967_296
    → queued (staged_one now x s) ≡ queued s ++ x ∷ []
unfolding packet_samples staged_one
queued-push now x s v free small =
    let n = s.sfifo_head - s.sfifo_tail in
    let e1 : sub32 (u32 (s.sfifo_head + 1)) s.sfifo_tail ≡ n + 1 = omega (arith, v.ordered) in
    let e2 : sub32 s.sfifo_head s.sfifo_tail ≡ n = omega (arith, v.ordered, v.no_wrap) in
    rw (e1, e2)
      (tabulate-add _ 0 n 1
        ∙ ap₂ ◌++◌
            (tabulate-ext _ _ 0 0 n (λ j p.
              update_ne s.sfifo (s.sfifo_head % sfifo_n) (u32 (s.sfifo_tail + (0 + j)) % sfifo_n) x
                (omega (arith, v.ordered, v.no_wrap))))
            (ap (λ y. y ∷ [])
              (update_self s.sfifo (s.sfifo_head % sfifo_n) (u32 (s.sfifo_tail + (0 + n)) % sfifo_n)
                x (omega (arith, v.ordered, v.no_wrap)))))

full_or_room :
    (s : Stream)
    → FifoOk s
    → (s.sfifo_head ≡ s.sfifo_tail + sfifo_n) ⊎ (s.sfifo_head < s.sfifo_tail + sfifo_n)
full_or_room s v = omega (arith, v.bounded)

-- One picked sample, and then the others.
stage_full :
    (now : ℕ) (x : Sample) (xs : List Sample) (s s' : Stream)
    → FifoOk s
    → s.sfifo_head ≡ s.sfifo_tail + sfifo_n
    → Sunk (stage_sample now x s) xs s'
    → Sunk s (x ∷ xs) s'
unfolding packet_samples
stage_full now x xs s s' v full a =
    let b = subst (λ m. Sunk m xs s') (stage_sample-full now x s v full) a in
    let none_left : room s ≡ 0 = omega (arith, full) in
    record {
      ok = b.ok;
      queue =
          b.queue
          ∙ ap (λ n. queued s ++ take n xs) none_left
          ∙ ap (λ n. queued s ++ take n (x ∷ xs)) (sym none_left);
      dropped = omega (arith, b.dropped, none_left);
      tail_same = b.tail_same;
    }

stage_room :
    (now : ℕ) (x : Sample) (xs : List Sample) (s s' : Stream)
    → FifoOk s
    → s.sfifo_head < s.sfifo_tail + sfifo_n
    → s.sfifo_head + 1 < 4_294_967_296
    → Sunk (stage_sample now x s) xs s'
    → Sunk s (x ∷ xs) s'
unfolding staged_one
stage_room now x xs s s' v free small a =
    let b = subst (λ m. Sunk m xs s') (stage_sample-room now x s v free) a in
    let left = sfifo_n - (u32 (s.sfifo_head + 1) - s.sfifo_tail) in
    let more : room s ≡ suc left = omega (arith, v.ordered) in
    record {
      ok = b.ok;
      queue =
          b.queue
          ∙ ap (λ t. t ++ take left xs) (queued-push now x s v free small)
          ∙ append_assoc (queued s) (x ∷ []) (take left xs)
          ∙ ap (λ n. queued s ++ take n (x ∷ xs)) (sym more);
      dropped = omega (arith, b.dropped, more);
      tail_same = b.tail_same;
    }

stage_sample-FifoOk :
    (now : ℕ) (x : Sample) (s : Stream)
    → FifoOk s
    → s.sfifo_head + 1 < 4_294_967_296
    → FifoOk (stage_sample now x s) × ((stage_sample now x s).sfifo_head ≤ s.sfifo_head + 1)
unfolding stage_sample
stage_sample-FifoOk now x s v small = ground (arith, v.ordered, v.bounded)

stage_sample-ctr :
    (now : ℕ) (x : Sample) (s : Stream) → (stage_sample now x s).sample_ctr ≡ s.sample_ctr
unfolding stage_sample
stage_sample-ctr now x s = ground arith

-- The counter's step alone leaves the FIFO as it is.
counted : Stream → Stream
counted s = record s { sample_ctr = u32 (s.sample_ctr + 1) }

counted-Sunk : (s s' : Stream) (xs : List Sample) → Sunk (counted s) xs s' → Sunk s xs s'
unfolding counted packet_samples
counted-Sunk s s' xs a = record {
  ok = a.ok;
  queue = a.queue;
  dropped = a.dropped;
  tail_same = a.tail_same;
}

counted-FifoOk : (s : Stream) → FifoOk s → FifoOk (counted s)
unfolding counted
counted-FifoOk s v = record {
  ordered = v.ordered;
  no_wrap = v.no_wrap;
  bounded = v.bounded;
  dropped_fits = v.dropped_fits;
}

sink_one-picked :
    (decim now : ℕ) (x : Sample) (s : Stream)
    → (s.sample_ctr % decim == 0) ≡ true
    → sink_one decim now x s ≡ stage_sample now x (counted s)
unfolding sink_one counted
sink_one-picked decim now x s e = ground arith

sink_one-skipped :
    (decim now : ℕ) (x : Sample) (s : Stream)
    → (s.sample_ctr % decim == 0) ≡ false
    → sink_one decim now x s ≡ counted s
unfolding sink_one counted
sink_one-skipped decim now x s e = ground arith

nothing-Sunk : (s : Stream) → FifoOk s → Sunk s [] s
nothing-Sunk s v = record {
  ok = v;
  queue = sym (ap (λ t. queued s ++ t) (take-nil (room s)) ∙ append-nil (queued s));
  dropped = omega (arith, v.dropped_fits);
  tail_same = refl;
}

-- The loop of `stream_sink`: of the samples handed over, exactly each `decim`-th by the counter is
-- picked; the picked ones are queued in order as long as the 256 cells have room; and each of the
-- others is counted in `stream_dropped`. The counter `sfifo_head` must not reach its wrap-around.
pub sink_all-Sunk :
    (decim now : ℕ) (xs : List Sample) (s : Stream)
    → FifoOk s
    → s.sfifo_head + length xs < 4_294_967_296
    → Sunk s (picked decim s.sample_ctr xs) (sink_all decim now xs s)
unfolding sink_all picked counted
sink_all-Sunk decim now [] s v small = nothing-Sunk s v
sink_all-Sunk decim now (x ∷ xs) s v small = elim (Bool-cases (s.sample_ctr % decim == 0)) [
  | inr skip ↦
      rw (skip, sink_one-skipped decim now x s skip)
        (counted-Sunk s _ _
          (sink_all-Sunk decim now xs (counted s) (counted-FifoOk s v) (omega arith)))
  | inl pick ↦
      let t = counted s in
      let (ok', grown) = stage_sample-FifoOk now x t (counted-FifoOk s v) (omega arith) in
      let rest =
        subst
          (λ c.
            Sunk (stage_sample now x t) (picked decim c xs)
              (sink_all decim now xs (stage_sample now x t)))
          (stage_sample-ctr now x t)
          (sink_all-Sunk decim now xs (stage_sample now x t) ok' (omega (arith, grown))) in
      rw (pick, sink_one-picked decim now x s pick)
        (counted-Sunk s _ _ (elim (full_or_room t (counted-FifoOk s v)) [
          | inl full ↦ stage_full now x _ t _ (counted-FifoOk s v) full rest
          | inr free ↦ stage_room now x _ t _ (counted-FifoOk s v) free (omega arith) rest
        ]))
]
