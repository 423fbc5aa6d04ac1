-- ===== src/Dump/Notify.antt =====
-- src/ble/ble_transport.c: the retry loops round `bt_gatt_notify_cb`.
use moamoa_caterpillar_firmw.Base.{ℕ, zero, suc, ◌+◌, ◌-◌, Bool, true, false, if◌then◌else◌}
use moamoa_caterpillar_firmw.Errno.{Status, ok, err, enomem, eagain, enobufs, is_err}

-- `ret == -ENOMEM || ret == -EAGAIN || ret == -ENOBUFS`
abbrev pub is_busy : Status → Bool
is_busy ok = false
is_busy (err enomem) = true
is_busy (err eagain) = true
is_busy (err enobufs) = true
is_busy (err e) = false

-- The loop, with the tries left and what the calls return; the result is that of the last call.
-- `aborted` says of each round whether `dump_abort` was set by then; `tx_notify` has no such test.
unfoldable pub notify_loop : ℕ → (ℕ → Status) → (ℕ → Bool) → ℕ → Status
notify_loop zero calls aborted k = calls k
notify_loop (suc tries) calls aborted k =
    let rest = notify_loop tries calls aborted (k + 1) in
    if is_busy (calls k) then (if aborted k then calls k else rest) else calls k

-- `tx_notify`: a credit within 500 ms, and 100 calls. The result is whether the notification was
-- sent, with the credits then; the sent callback gives the credit of a sent one back.
unfoldable pub tx_notify : Bool → (ℕ → Status) → ℕ → Bool × ℕ
unfolding notify_loop
tx_notify credit calls credits =
    if credit
    then (if is_err (notify_loop 99 calls (λ k. false) 0)
        then (false, credits)
        else (true, credits - 1))
    else (false, credits)
