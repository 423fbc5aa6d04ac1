-- ===== src/Dump/Thread.antt =====
-- src/ble/ble_transport.c: the request and the thread of the log dump.
use moamoa_caterpillar_firmw.Base.{
  ℕ, zero, suc, ◌+◌, Bool, true, ◌||◌, List, [], ◌∷◌, ◌++◌, if◌then◌else◌, ltb, ◌==◌, min, u32,
  sub32, le16, le32, length,
}
use moamoa_caterpillar_firmw.Errno.{Errno, Status, ok, err}
use moamoa_caterpillar_firmw.Flash.{Read, got, failed}
use moamoa_caterpillar_firmw.Dump.Notify.{notify_loop}

abbrev pub dump_chunk_data : ℕ
dump_chunk_data = 232

-- The statics of the dump, and whether `dump_sem` is given.
pub record Request : Type 0 where
  pub session : ℕ
  pub off : ℕ
  pub len : ℕ
  pub aborting : Bool  -- `dump_abort`
  pub signalled : Bool

unfoldable pub dump_request : ℕ → ℕ → ℕ → Request → Request
dump_request session offset len r = record {
  session = session;
  off = offset;
  len = len;
  aborting = true;
  signalled = true;
}

unfoldable pub dump_abort : Request → Request
dump_abort r = record r { aborting = true }

-- A notification of the dump: offset, count, whether it is the last, and the bytes.
pub record Chunk : Type 0 where
  pub off : ℕ
  pub is_last : Bool
  pub payload : List ℕ

unfoldable pub chunk_bytes : Chunk → List ℕ
chunk_bytes c =
    le32 c.off ++ le16 (length c.payload) ++ (if c.is_last then 1 else 0) ∷ 0 ∷ c.payload

-- How the loop ends: with the last chunk, by an abort or nothing left, by a failed read, for want
-- of a credit, or by a failed notification.
pub data Outcome : Type 0 where
  finished stopped stalled : Outcome
  read_error send_error : Errno → Outcome

-- What the calls of a round return, by its number: whether `dump_abort` is set at the test, whether
-- a credit came within three seconds, and the calls of `bt_gatt_notify_cb`.
pub record DumpEnv : Type 0 where
  pub aborted : ℕ → Bool
  pub credit : ℕ → Bool
  pub calls : ℕ → ℕ → Status
  pub aborted_sending : ℕ → ℕ → Bool

unfoldable pub is_last_chunk : ℕ → ℕ → ℕ → Bool
is_last_chunk n want remaining = ltb n want || n == remaining

abbrev pub add_chunk : Chunk → List Chunk × Outcome → List Chunk × Outcome
add_chunk c (cs, o) = (c ∷ cs, o)

module _ (read : ℕ → ℕ → Read) (env : DumpEnv) where
  -- What a round does with the bytes read, and the rounds behind it.
  unfoldable pub send_chunk : ℕ → ℕ → ℕ → ℕ → List ℕ → List Chunk × Outcome → List Chunk × Outcome
  unfolding is_last_chunk notify_loop
  send_chunk k off want remaining bs rest =
      if env.credit k
      then elim (notify_loop 499 (env.calls k) (env.aborted_sending k) 0) [
        | err e ↦ ([], send_error e)
        | ok ↦
            let c : Chunk = record {
              off = off;
              is_last = is_last_chunk (length bs) want remaining;
              payload = bs;
            } in
            if is_last_chunk (length bs) want remaining
            then (c ∷ [], finished)
            else add_chunk c rest
      ]
      else ([], stalled)

  -- The inner loop, on fuel, with the round's number. A round that is not the last takes 232 bytes
  -- off `remaining`, so as much fuel as bytes asked for is enough.
  unfoldable pub dump_loop : ℕ → ℕ → ℕ → ℕ → List Chunk × Outcome
  unfolding send_chunk
  dump_loop zero k off remaining = ([], stopped)
  dump_loop (suc fuel) k off remaining =
      let want = min remaining dump_chunk_data in
      if remaining == 0 || env.aborted k then ([], stopped) else elim (read off want) [
        | failed e ↦ ([], read_error e)
        | got bs ↦
            send_chunk k off want remaining bs
              (dump_loop fuel (k + 1) (u32 (off + length bs)) (sub32 remaining (length bs)))
      ]

  -- A round of `dump_thread` for the request that its statics hold.
  unfoldable pub serve : Request → List Chunk × Outcome
  unfolding dump_loop
  serve r = dump_loop r.len 0 r.off r.len
