-- ===== src/Dump/Credits.antt =====
-- src/ble/ble_transport.c: the credits that keep the notifications in flight few, `tx_credits` of the
-- TX thread and `dump_credit_sem` of the dump thread. The Bluetooth stack calls the sent callback once
-- for each notification that it took, at any time.
use moamoa_caterpillar_firmw.Base.{
  ℕ, ◌+◌, ◌-◌, ◌<◌, ◌≡◌, ◌⊎◌, Bool, true, false, if◌then◌else◌, ◌==◌, ◌||◌, min,
}
use moamoa_caterpillar_firmw.Errno.{Status, is_err}
use moamoa_caterpillar_firmw.Dump.Notify.{notify_loop}
mod Paced
mod Overfull
mod Tests

-- DUMP_CREDITS, and the limit of `tx_credits`.
abbrev pub max_credits : ℕ
max_credits = 2

-- Where the thread stands: outside its loop, at the loop's test, before it takes a credit, or between
-- that and the result of the notification.
pub data FlowPc : Type 0 where
  resting testing sending holding : FlowPc

-- The semaphore's count; the notifications that the stack has and not called back for; `dump_abort`,
-- and whether `dump_sem` is given, which the TX thread does not have; and the requests so far.
pub record Flow : Type 0 where
  pub credits : ℕ
  pub in_flight : ℕ
  pub pc : FlowPc
  pub aborting : Bool
  pub signalled : Bool
  pub requests : ℕ

-- `k_sem_give`
unfoldable pub sem_give : Flow → Flow
sem_give f = record f { credits = min (f.credits + 1) max_credits }

-- `dump_thread`: all credits are taken, then as many given as there may be.
unfoldable pub fresh_credits : Flow → Flow
unfolding sem_give
fresh_credits f = sem_give (sem_give (record f { credits = 0 }))

-- `ble_transport_dump_request` and `ble_transport_dump_abort`
unfoldable pub request_dump : Flow → Flow
request_dump f = record f { aborting = true; signalled = true; requests = f.requests + 1 }

unfoldable pub abort_dump : Flow → Flow
abort_dump f = record f { aborting = true }

-- `dump_thread` takes up a request.
unfoldable pub begin_dump : Flow → Flow
unfolding fresh_credits
begin_dump f = record (fresh_credits (record f { aborting = false; signalled = false })) {
  pc = testing;
}

-- `remaining > 0 && !dump_abort`, for what is left to send.
unfoldable pub loop_test : ℕ → Flow → Flow
loop_test remaining f =
    if remaining == 0 || f.aborting then record f { pc = resting } else record f { pc = sending }

-- The wait for a credit, when it ends. Without one the TX thread drops the notification and the dump
-- thread the dump.
unfoldable pub take_credit : Flow → Flow
take_credit f =
    if f.credits == 0
    then record f { pc = resting }
    else record f { credits = f.credits - 1; pc = holding }

-- What follows the retry loop, for its result: a notification that the stack did not take gives its
-- credit back. `is_last` says whether the loop ends behind a notification that it took.
unfoldable pub notify_done : Bool → Status → Flow → Flow
unfolding sem_give
notify_done is_last ret f =
    if is_err ret
    then record (sem_give f) { pc = resting }
    else record f { in_flight = f.in_flight + 1; pc = if is_last then resting else testing }

-- `tx_sent_cb`, `dump_sent_cb`
unfoldable pub sent_cb : Flow → Flow
unfolding sem_give
sent_cb f = sem_give (record f { in_flight = f.in_flight - 1 })

-- The two threads, each with its own credits.
pub data Thread : Type 0 where
  tx dump : Thread

-- What can happen. The stack takes a notification only while one of its `contexts` is free; without
-- one the call fails or does not return. The TX thread makes no fresh credits and tests nothing but its
-- queues; the dump thread leaves its loop by its test, behind the last chunk, or by a failure. `Begins`
-- says whether it may take up a request.
module _ (contexts : ℕ) (Begins : Type 0) where
  pub data Step (f : Flow) : Thread → Flow → Type 0 where
    begin_tx : f.pc ≡ resting → Step f tx (record f { pc = sending })
    again_tx : f.pc ≡ testing → Step f tx (record f { pc = sending })
    request : Step f dump (request_dump f)
    abort : Step f dump (abort_dump f)
    begin : Begins → f.pc ≡ resting → f.signalled ≡ true → Step f dump (begin_dump f)
    test : (remaining : ℕ) → f.pc ≡ testing → Step f dump (loop_test remaining f)
    take : (th : Thread) → f.pc ≡ sending → Step f th (take_credit f)
    notify :
        (th : Thread) (is_last : Bool) (tries : ℕ) (calls : ℕ → Status) (aborted : ℕ → Bool)
        → f.pc ≡ holding
        → (f.in_flight < contexts) ⊎ (is_err (notify_loop tries calls aborted 0) ≡ true)
        → Step f th (notify_done is_last (notify_loop tries calls aborted 0) f)
    call_back : (th : Thread) → 0 < f.in_flight → Step f th (sent_cb f)

  pub data Reach (th : Thread) (f : Flow) : Flow → Type 0 where
    here : Reach th f f
    next : {g h : Flow} → Reach th f g → Step g th h → Reach th f h
