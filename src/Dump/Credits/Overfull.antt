-- ===== src/Dump/Credits/Overfull.antt =====
-- Requests that abort each other: the dump thread of src/ble/ble_transport.c.
use moamoa_caterpillar_firmw.Base.{ℕ, zero, suc, ◌+◌, ◌*◌, ◌≤◌, ◌≡◌, refl, true, false, inl, arith}
use moamoa_caterpillar_firmw.Errno.{ok}
use moamoa_caterpillar_firmw.Dump.Notify.{notify_loop}
use moamoa_caterpillar_firmw.Dump.Credits.{
  resting, Flow, sem_give, fresh_credits, request_dump, abort_dump, begin_dump, loop_test,
  take_credit, notify_done, dump, request, abort, begin, test, take, notify, Reach, here, next,
}

-- A request of which two chunks are sent, and that is aborted before they are called back.
abbrev two_sent : Flow → Flow
two_sent f = record f {
  credits = 0;
  in_flight = f.in_flight + 1 + 1;
  pc = resting;
  aborting = true;
  signalled = false;
  requests = f.requests + 1;
}

two_sent-Reach :
    (contexts : ℕ) (f g : Flow)
    → g.pc ≡ resting
    → g.in_flight + 2 ≤ contexts
    → Reach contexts (Unit {0}) dump f g
    → Reach contexts (Unit {0}) dump f (two_sent g)
unfolding request_dump abort_dump fresh_credits begin_dump loop_test take_credit notify_done
    sem_give notify_loop
two_sent-Reach contexts f g e room r =
    let begun = next (next r request) (begin tt e refl) in
    let one =
      next (next (next begun (test 1000 refl)) (take dump refl))
        (notify dump false 499 (λ k. ok) (λ k. false) refl (inl (omega (arith, room)))) in
    let two =
      next (next (next one (test 768 refl)) (take dump refl))
        (notify dump false 499 (λ k. ok) (λ k. false) refl (inl (omega (arith, room)))) in
    next (next two abort) (test 536 refl)

-- The dump thread makes two fresh credits for each request without waiting for the callbacks of the
-- one before. From any state in which it waits, as long as the stack has contexts for them, `n`
-- requests in turn, each aborted behind two chunks that are not yet called back, leave 2 * n more
-- notifications in flight: from the second one on more than DUMP_CREDITS allows, up to all the
-- contexts.
pub requests-overfill :
    (contexts : ℕ) (f : Flow) (n : ℕ)
    → f.pc ≡ resting
    → f.in_flight + 2 * n ≤ contexts
    → (g : Flow) × Reach contexts (Unit {0}) dump f g
      × (g.requests ≡ f.requests + n)
      × (g.in_flight ≡ f.in_flight + 2 * n)
      × (g.pc ≡ resting)
requests-overfill contexts f zero e room = (f, here, omega arith, omega arith, e)
requests-overfill contexts f (suc n) e room =
    let (g, r, b, c, p) = requests-overfill contexts f n e (omega (arith, room)) in
    (
      two_sent g,
      two_sent-Reach contexts f g p (omega (arith, room, c)) r,
      omega (arith, b),
      omega (arith, c),
      refl,
    )
