-- ===== src/Dump/Credits/Tests.antt =====
-- Runs of the flow control of src/ble/ble_transport.c.
use moamoa_caterpillar_firmw.Base.{◌+◌, ◌*◌, ◌≤◌, ◌≡◌, refl, true, false, inl, arith}
use moamoa_caterpillar_firmw.Errno.{ok}
use moamoa_caterpillar_firmw.Dump.Notify.{notify_loop}
use moamoa_caterpillar_firmw.Dump.Credits.{
  max_credits, resting, sending, Flow, sem_give, take_credit, notify_done, sent_cb, tx, dump,
  begin_tx, take, notify, call_back, Reach, here, next,
}
use moamoa_caterpillar_firmw.Dump.Credits.Paced.{held, Reach-paced}
use moamoa_caterpillar_firmw.Dump.Credits.Overfull.{requests-overfill}

abbrev idle : Flow
idle = record {
  credits = 2;
  in_flight = 0;
  pc = resting;
  aborting = false;
  signalled = false;
  requests = 0;
}

-- One notification is sent and called back.
abbrev sent_one : Flow
sent_one = sent_cb (
    notify_done true (notify_loop 99 (λ k. ok) (λ k. false) 0)
      (take_credit (record idle { pc = sending })))

sent_one-Reach : Reach 3 ⊥ tx idle sent_one
unfolding take_credit notify_done sem_give sent_cb notify_loop
sent_one-Reach =
    next
      (next (next (next here (begin_tx refl)) (take tx refl))
        (notify tx true 99 (λ k. ok) (λ k. false) refl (inl (omega arith))))
      (call_back tx (omega arith))

Reach-paced_example :
    (sent_one.credits + held sent_one.pc + sent_one.in_flight ≡ max_credits)
    × (sent_one.in_flight ≤ max_credits)
    × (sent_one.pc ≡ sending → sent_one.credits ≡ 0 → sent_one.in_flight ≡ max_credits)
Reach-paced_example = Reach-paced refl sent_one-Reach

requests-overfill_example :
    (g : Flow) × Reach 7 (Unit {0}) dump idle g
    × (g.requests ≡ 0 + 3)
    × (g.in_flight ≡ 0 + 2 * 3)
    × (g.pc ≡ resting)
requests-overfill_example = requests-overfill 7 idle 3 refl (omega arith)
