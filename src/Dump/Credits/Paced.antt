-- ===== src/Dump/Credits/Paced.antt =====
-- Credits of src/ble/ble_transport.c are neither lost nor made.
use moamoa_caterpillar_firmw.Base.{ℕ, ◌+◌, ◌≤◌, ◌<◌, ◌≡◌, refl, Bool, arith}
use moamoa_caterpillar_firmw.Errno.{Status}
use moamoa_caterpillar_firmw.Dump.Credits.{
  max_credits, FlowPc, resting, testing, sending, holding, Flow, sem_give, request_dump, abort_dump,
  loop_test, take_credit, notify_done, sent_cb, Thread, Step, begin_tx, again_tx, request, abort,
  begin, test, take, notify, call_back, Reach, here, next,
}

-- The credit that the thread holds.
abbrev pub held : FlowPc → ℕ
held resting = 0
held testing = 0
held sending = 0
held holding = 1

abbrev pub IsPaced : Flow → Type 0
IsPaced f = f.credits + held f.pc + f.in_flight ≡ max_credits

take_credit-IsPaced : (f : Flow) → f.pc ≡ sending → IsPaced f → IsPaced (take_credit f)
unfolding take_credit
take_credit-IsPaced f e v = ground (arith, e, v)

notify_done-IsPaced :
    (is_last : Bool) (ret : Status) (f : Flow)
    → f.pc ≡ holding
    → IsPaced f
    → IsPaced (notify_done is_last ret f)
unfolding notify_done sem_give
notify_done-IsPaced is_last ret f e v = ground (arith, e, v)

sent_cb-IsPaced : (f : Flow) → 0 < f.in_flight → IsPaced f → IsPaced (sent_cb f)
unfolding sent_cb sem_give
sent_cb-IsPaced f h v = ground (arith, h, v)

loop_test-IsPaced :
    (remaining : ℕ) (f : Flow) → f.pc ≡ testing → IsPaced f → IsPaced (loop_test remaining f)
unfolding loop_test
loop_test-IsPaced remaining f e v = ground (arith, e, v)

-- From a place where no credit is held to another one.
moved-IsPaced :
    (f : Flow) (pc : FlowPc) → held f.pc ≡ held pc → IsPaced f → IsPaced (record f { pc = pc })
moved-IsPaced f pc e v = omega (arith, e, v)

module _ {contexts : ℕ} where
  Step-IsPaced : {th : Thread} {f g : Flow} → Step contexts ⊥ f th g → IsPaced f → IsPaced g
  unfolding request_dump abort_dump
  Step-IsPaced {f = f} (begin_tx e) v = moved-IsPaced f sending (rw e refl) v
  Step-IsPaced {f = f} (again_tx e) v = moved-IsPaced f sending (rw e refl) v
  Step-IsPaced {f = f} request v = v
  Step-IsPaced {f = f} abort v = v
  Step-IsPaced {f = f} (begin never e h) v = absurd never
  Step-IsPaced {f = f} (test remaining e) v = loop_test-IsPaced remaining f e v
  Step-IsPaced {f = f} (take th e) v = take_credit-IsPaced f e v
  Step-IsPaced {f = f} (notify th is_last tries calls aborted e room) v =
      notify_done-IsPaced is_last _ f e v
  Step-IsPaced {f = f} (call_back th h) v = sent_cb-IsPaced f h v

  Reach-IsPaced : {th : Thread} {f g : Flow} → IsPaced f → Reach contexts ⊥ th f g → IsPaced g
  Reach-IsPaced v here = v
  Reach-IsPaced v (next r s) = Step-IsPaced s (Reach-IsPaced v r)

-- A thread that makes no fresh credits (the TX thread always, and the dump thread within a request
-- that began with nothing in flight), for any results of its notifications, any sent callbacks, and any
-- number of contexts of the stack: credits, held ones and notifications in flight are two in all. So
-- never more than two are in flight, and none is lost: a thread that finds no credit has two
-- notifications out, whose callbacks give them back.
pub Reach-paced :
    {contexts : ℕ} {th : Thread} {f g : Flow}
    → IsPaced f
    → Reach contexts ⊥ th f g
    → (g.credits + held g.pc + g.in_flight ≡ max_credits)
      × (g.in_flight ≤ max_credits)
      × (g.pc ≡ sending → g.credits ≡ 0 → g.in_flight ≡ max_credits)
Reach-paced v r = let w = Reach-IsPaced v r in (w, omega (arith, w), λ e z. ground (arith, w, e, z))
