-- ===== src/Recorder/Runs.antt =====
-- A run of the recorder, as the ring and the log each see it.
use moamoa_caterpillar_firmw.Base.{
  ℕ, ◌+◌, ◌≡◌, refl, ap, sym, ◌∙◌, List, [], ◌∷◌, ◌++◌, append-nil, append_assoc, Option, none,
  some, arith, length, length-append, u32,
}
use moamoa_caterpillar_firmw.Flash.{FlashDevice}
use moamoa_caterpillar_firmw.Imu.Shared.{Sample}
use moamoa_caterpillar_firmw.Imu.Sampler.{ProducerPc, between, store, advance}
use moamoa_caterpillar_firmw.Imu.Pump.{pump_step}
use moamoa_caterpillar_firmw.Imu.Spsc.{
  System, handed, pump_moves, pump_at, sample_found, producer_moves, producer_at, pump_wakes,
}
use moamoa_caterpillar_firmw.Imu.Spsc as Spsc
use moamoa_caterpillar_firmw.Log.State.{Log}
use moamoa_caterpillar_firmw.Log.Writer.{imu_log_append, writer_drain_batch}
use moamoa_caterpillar_firmw.Log.Events.{Event, append, batch, happen, run_session, offered}
use moamoa_caterpillar_firmw.Recorder.{
  Hand, looping, to_log, to_sink, Recorder, hand_of, pump_drains, hand_to_log, hand_to_sink,
  writer_batch, Step, sample, produce, wake, drain, call_log, call_sink, write, elsewhere, Reach,
  here, next,
}

-- The chunk that is not yet at the log.
abbrev pub waiting : Hand → List Sample
waiting looping = []
waiting (to_log chunk) = chunk
waiting (to_sink chunk) = []

waiting-hand_of : (o : Option (List Sample)) → waiting (hand_of o) ≡ handed o
waiting-hand_of none = refl
waiting-hand_of (some chunk) = refl

run_session-last :
    (fl : FlashDevice) (e : Event) (es : List Event) (l : Log)
    → run_session fl (es ++ e ∷ []) l ≡ happen fl e (run_session fl es l)
unfolding run_session
run_session-last fl e [] l = refl
run_session-last fl e (x ∷ es) l = run_session-last fl e es (happen fl x l)

offered-last_append :
    (ss : List Sample) (es : List Event) → offered (es ++ append ss ∷ []) ≡ offered es ++ ss
unfolding offered
offered-last_append ss [] = append-nil ss
offered-last_append ss (append xs ∷ es) =
    ap (λ t. xs ++ t) (offered-last_append ss es) ∙ sym (append_assoc xs (offered es) ss)
offered-last_append ss (batch ∷ es) = offered-last_append ss es

offered-last_batch : (es : List Event) → offered (es ++ batch ∷ []) ≡ offered es
unfolding offered
offered-last_batch [] = refl
offered-last_batch (append xs ∷ es) = ap (λ t. xs ++ t) (offered-last_batch es)
offered-last_batch (batch ∷ es) = offered-last_batch es

-- A run, as the ring and the log each see it.
pub record Split (fl : FlashDevice) (t u : Recorder) : Type 0 where
  pub ring : Spsc.Reach t.ring u.ring
  pub events : List Event
  pub ran : u.log ≡ run_session fl events t.log
  pub given : u.ring.delivered ≡ t.ring.delivered ++ (offered events ++ waiting u.hand)
  pub counted :
      u32 u.drained_total ≡ u32 (t.drained_total + length (offered events ++ waiting u.hand))

module _ (fl : FlashDevice) where
  -- A step of the ring that delivers nothing.
  quiet :
      (t u : Recorder) (r : System)
      → Spsc.Step u.ring r
      → r.delivered ≡ u.ring.delivered
      → Split fl t u
      → Split fl t (record u { ring = r })
  quiet t u r st e s = record {
    ring = Spsc.next s.ring st;
    events = s.events;
    ran = s.ran;
    given = e ∙ s.given;
    counted = s.counted;
  }

  drains : (t u : Recorder) → u.hand ≡ looping → Split fl t u → Split fl t (pump_drains u)
  unfolding pump_drains pump_moves pump_at
  drains t u e s =
      let chunk = (pump_step u.ring.sh u.ring.consumer).2 in
      let none_yet : offered s.events ++ waiting u.hand ≡ offered s.events =
        ap (λ h. offered s.events ++ waiting h) e ∙ append-nil (offered s.events) in
      let now_more : offered s.events ++ waiting (hand_of chunk)
          ≡ offered s.events ++ handed chunk =
        ap (λ c. offered s.events ++ c) (waiting-hand_of chunk) in
      record {
        ring = Spsc.next s.ring Spsc.drain;
        events = s.events;
        ran = s.ran;
        given =
            ap (λ d. d ++ handed chunk) (s.given ∙ ap (λ c. t.ring.delivered ++ c) none_yet)
            ∙ append_assoc t.ring.delivered (offered s.events) (handed chunk)
            ∙ sym (ap (λ c. t.ring.delivered ++ c) now_more);
        counted = omega (
          arith,
          s.counted,
          ap length none_yet,
          ap length now_more,
          length-append (offered s.events) (handed chunk),
        );
      }

  -- The log is called: what the observer has seen stays the same.
  logs :
      (chunk : List Sample) (t u : Recorder)
      → u.hand ≡ to_log chunk
      → Split fl t u
      → Split fl t (hand_to_log chunk u)
  unfolding hand_to_log happen
  logs chunk t u e s =
      let same : offered (s.events ++ append chunk ∷ []) ++ []
          ≡ offered s.events ++ waiting u.hand =
        append-nil (offered (s.events ++ append chunk ∷ []))
        ∙ offered-last_append chunk s.events
        ∙ sym (ap (λ h. offered s.events ++ waiting h) e) in
      record {
        ring = s.ring;
        events = s.events ++ append chunk ∷ [];
        ran =
            ap (λ l. imu_log_append l chunk) s.ran
            ∙ sym (run_session-last fl (append chunk) s.events t.log);
        given = s.given ∙ sym (ap (λ c. t.ring.delivered ++ c) same);
        counted = omega (arith, s.counted, ap length same);
      }

  sinks :
      (now : ℕ) (chunk : List Sample) (t u : Recorder)
      → u.hand ≡ to_sink chunk
      → Split fl t u
      → Split fl t (hand_to_sink now chunk u)
  unfolding hand_to_sink
  sinks now chunk t u e s =
      let same : offered s.events ++ waiting u.hand ≡ offered s.events ++ [] =
        ap (λ h. offered s.events ++ waiting h) e in
      record {
        ring = s.ring;
        events = s.events;
        ran = s.ran;
        given = s.given ∙ ap (λ c. t.ring.delivered ++ c) same;
        counted = omega (arith, s.counted, ap length same);
      }

  writes : (t u : Recorder) → Split fl t u → Split fl t (writer_batch fl u)
  unfolding writer_batch happen
  writes t u s =
      let same = ap (λ c. c ++ waiting u.hand) (offered-last_batch s.events) in
      record {
        ring = s.ring;
        events = s.events ++ batch ∷ [];
        ran = ap (writer_drain_batch fl) s.ran ∙ sym (run_session-last fl batch s.events t.log);
        given = s.given ∙ sym (ap (λ c. t.ring.delivered ++ c) same);
        counted = omega (arith, s.counted, ap length same);
      }

  producer_at-delivered :
      (pc : ProducerPc) (r : System) → (producer_at pc r).delivered ≡ r.delivered
  unfolding producer_at
  producer_at-delivered between r = refl
  producer_at-delivered (store head s) r = refl
  producer_at-delivered (advance head) r = refl

  Step-Split : {t u v : Recorder} → Step fl u v → Split fl t u → Split fl t v
  unfolding sample_found producer_moves pump_wakes
  Step-Split {t} {u} (sample x e) s = quiet t u _ (Spsc.sample x e) refl s
  Step-Split {t} {u} produce s =
      quiet t u _ Spsc.produce (producer_at-delivered u.ring.producer u.ring) s
  Step-Split {t} {u} (wake h e) s = quiet t u _ (Spsc.wake e) refl s
  Step-Split {t} {u} (drain h) s = drains t u h s
  Step-Split {t} {u} (call_log chunk h) s = logs chunk t u h s
  Step-Split {t} {u} (call_sink now chunk h) s = sinks now chunk t u h s
  Step-Split {t} {u} write s = writes t u s
  Step-Split {t} {u} (elsewhere x) s = record {
    ring = s.ring;
    events = s.events;
    ran = s.ran;
    given = s.given;
    counted = s.counted;
  }

  pub Reach-Split : {t u : Recorder} → t.hand ≡ looping → Reach fl t u → Split fl t u
  unfolding run_session offered
  Reach-Split {t} e here =
      let same : waiting t.hand ≡ [] = ap waiting e in
      record {
        ring = Spsc.here;
        events = [];
        ran = refl;
        given = sym (append-nil t.ring.delivered) ∙ sym (ap (λ c. t.ring.delivered ++ c) same);
        counted = omega (arith, ap length same);
      }
  Reach-Split e (next r s) = Step-Split s (Reach-Split e r)
