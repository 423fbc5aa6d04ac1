-- ===== src/Dump/Chunks.antt =====
-- The chunks of a dump against the bytes of its source (src/ble/ble_transport.c).
use moamoa_caterpillar_firmw.Base.{
  ℕ, zero, suc, ◌+◌, ◌-◌, ◌≤◌, ◌<◌, ◌≡◌, refl, ap, ap₂, sym, subst, ◌∙◌, ◌⊎◌, inl, inr, true, false,
  List, [], ◌∷◌, ◌++◌, append-nil, arith, length, length-tabulate, tabulate, tabulate-add, min, u32,
  sub32,
}
use moamoa_caterpillar_firmw.Errno.{ok}
use moamoa_caterpillar_firmw.Flash.{Read, got}
use moamoa_caterpillar_firmw.Dump.Notify.{notify_loop}
use moamoa_caterpillar_firmw.Dump.Thread.{
  Request, Chunk, Outcome, finished, DumpEnv, dump_chunk_data, is_last_chunk, add_chunk, send_chunk,
  dump_loop, serve,
}

-- The bytes of the chunks, one after the other.
unfoldable pub payloads : List Chunk → List ℕ
payloads [] = []
payloads (c ∷ cs) = c.payload ++ payloads cs

-- The chunks follow one another from an offset on, none is longer than a notification has room
-- for, and the last one alone says that it is the last.
abbrev pub InOrder : ℕ → List Chunk → Type 0
InOrder off [] = Unit {0}
InOrder off (c ∷ []) = (c.off ≡ off) × (length c.payload ≤ dump_chunk_data) × (c.is_last ≡ true)
InOrder off (c ∷ d ∷ cs) =
    (c.off ≡ off)
    × (length c.payload ≤ dump_chunk_data)
    × (c.is_last ≡ false)
    × InOrder (off + length c.payload) (d ∷ cs)

-- Nothing aborts the dump, a credit always comes, and no notification is refused.
pub record Smooth (env : DumpEnv) : Type 0 where
  pub no_abort : (k : ℕ) → env.aborted k ≡ false
  pub credits : (k : ℕ) → env.credit k ≡ true
  pub sent : (k : ℕ) → notify_loop 499 (env.calls k) (env.aborted_sending k) 0 ≡ ok

-- What a dump of `len` bytes from `off` on is to send of a source of `total` bytes.
pub record Complete (byte : ℕ → ℕ) (base total off len : ℕ) (r : List Chunk × Outcome)
    : Type 0 where
  pub outcome : r.1 ≡ finished
  pub bytes_sent : payloads r.0 ≡ tabulate byte (base + off) (min len (total - off))
  pub in_order : InOrder off r.0
  pub some_chunk : (c : Chunk) × (cs : List Chunk) × (r.0 ≡ c ∷ cs)

module _ (read : ℕ → ℕ → Read) (env : DumpEnv) where
  send_last :
      (k off want remaining : ℕ) (bs : List ℕ) (rest : List Chunk × Outcome)
      → Smooth env
      → (length bs < want) ⊎ (length bs ≡ remaining)
      → send_chunk read env k off want remaining bs rest
        ≡ (record { off = off; is_last = true; payload = bs } ∷ [], finished)
  unfolding send_chunk is_last_chunk
  send_last k off want remaining bs rest s h = ground (arith, s.credits k, s.sent k)

  send_more :
      (k off want remaining : ℕ) (bs : List ℕ) (rest : List Chunk × Outcome)
      → Smooth env
      → want ≤ length bs
      → length bs < remaining
      → send_chunk read env k off want remaining bs rest
        ≡ add_chunk (record { off = off; is_last = false; payload = bs }) rest
  unfolding send_chunk is_last_chunk
  send_more k off want remaining bs rest s h l = ground (arith, s.credits k, s.sent k)

  loop_round :
      (fuel k off remaining : ℕ) (bs : List ℕ)
      → Smooth env
      → 0 < remaining
      → read off (min remaining dump_chunk_data) ≡ got bs
      → dump_loop read env (suc fuel) k off remaining
        ≡ send_chunk read env k off
            (min remaining dump_chunk_data)
            remaining
            bs
            (dump_loop read env fuel (k + 1) (u32 (off + length bs)) (sub32 remaining (length bs)))
  unfolding dump_loop
  loop_round fuel k off remaining bs s more e = ground (arith, s.no_abort k, e)

  last_or_more :
      (n want remaining : ℕ)
      → n ≤ want
      → want ≤ remaining
      → ((n < want) ⊎ (n ≡ remaining)) ⊎ ((n ≡ want) × (n < remaining))
  last_or_more n want remaining h k = omega arith

  Complete-last :
      (byte : ℕ → ℕ) (base total off len n : ℕ)
      → n ≤ dump_chunk_data
      → n ≡ min len (total - off)
      → Complete byte base total off len (
        record { off = off; is_last = true; payload = tabulate byte (base + off) n } ∷ [],
        finished,
      )
  unfolding payloads
  Complete-last byte base total off len n small e = record {
    outcome = refl;
    bytes_sent = append-nil _ ∙ ap (tabulate byte (base + off)) e;
    in_order = (refl, omega (arith, length-tabulate byte (base + off) n, small), refl);
    some_chunk = (_, _, refl);
  }

  InOrder-cons :
      (c : Chunk) (off : ℕ) (r : List Chunk × Outcome)
      → c.off ≡ off
      → length c.payload ≤ dump_chunk_data
      → c.is_last ≡ false
      → ((d : Chunk) × (ds : List Chunk) × (r.0 ≡ d ∷ ds))
      → InOrder (off + length c.payload) r.0
      → InOrder off (c ∷ r.0)
  InOrder-cons c off (d ∷ ds, o) p q l found rest = (p, q, l, rest)
  InOrder-cons c off ([], o) p q l (d, ds, e) rest = absurd (cc)

  Complete-more :
      (byte : ℕ → ℕ) (base total off len n : ℕ) (r : List Chunk × Outcome)
      → n ≤ dump_chunk_data
      → n ≤ len
      → n ≤ total - off
      → Complete byte base total (off + n) (len - n) r
      → Complete byte base total off len (
          add_chunk
            (record { off = off; is_last = false; payload = tabulate byte (base + off) n })
            r)
  unfolding payloads
  Complete-more byte base total off len n (cs, o) small fits there c = record {
    outcome = c.outcome;
    bytes_sent =
        ap (λ t. tabulate byte (base + off) n ++ t) c.bytes_sent
        ∙ ap₂ (λ a m. tabulate byte (base + off) n ++ tabulate byte a m) {y = base + off + n}
            (omega arith) (omega arith)
        ∙ sym (tabulate-add byte (base + off) n (min len (total - off) - n))
        ∙ ap (tabulate byte (base + off)) (omega (arith, fits, there));
    in_order =
        InOrder-cons _ off (cs, o) refl (omega (arith, length-tabulate byte (base + off) n, small))
          refl c.some_chunk
          (subst (λ x. InOrder x cs) (omega (arith, length-tabulate byte (base + off) n))
            c.in_order);
    some_chunk = (_, cs, refl);
  }

  -- The source delivers the bytes from an offset on, cut to what is there.
  abbrev pub Delivers : (ℕ → ℕ) → ℕ → ℕ → Type 0
  Delivers byte base total =
      (off want : ℕ) → read off want ≡ got (tabulate byte (base + off) (min want (total - off)))

  -- A round that is not the last one, with its successors.
  Complete-step :
      (byte : ℕ → ℕ) (base total fuel k off len : ℕ)
      → len < 4_294_967_296
      → off + len < 4_294_967_296
      → let n = min (min len dump_chunk_data) (total - off) in
        (n ≡ min len dump_chunk_data)
        → n < len
        → Complete byte base total
            (off + n)
            (len - n)
            (dump_loop read env fuel (k + 1) (off + n) (len - n))
        → let bs = tabulate byte (base + off) n in
          Complete byte base total off len (
            add_chunk
              (record { off = off; is_last = false; payload = bs })
              (dump_loop read env fuel (k + 1) (u32 (off + length bs)) (sub32 len (length bs))))
  Complete-step byte base total fuel k off len fits small full some_left c =
      let n = min (min len dump_chunk_data) (total - off) in
      let size : length (tabulate byte (base + off) n) ≡ n = length-tabulate byte (base + off) n in
      subst
        (λ x. Complete byte base total off len (
          add_chunk (record { off = off; is_last = false; payload = tabulate byte (base + off) n })
            x))
        (ap₂ (dump_loop read env fuel (k + 1))
          {y = u32 (off + length (tabulate byte (base + off) n))} (omega (arith, size))
          (omega (arith, size)))
        (Complete-more byte base total off len n _ (omega arith) (omega arith) (omega arith) c)

  dump_loop-Complete :
      (byte : ℕ → ℕ) (base total fuel k off len : ℕ)
      → Smooth env
      → Delivers byte base total
      → 0 < len
      → len ≤ fuel
      → off + len < 4_294_967_296
      → Complete byte base total off len (dump_loop read env fuel k off len)
  dump_loop-Complete byte base total zero k off len s d more enough small = absurd (omega arith)
  dump_loop-Complete byte base total (suc fuel) k off len s d more enough small =
      let want = min len dump_chunk_data in
      let n = min want (total - off) in
      let bs = tabulate byte (base + off) n in
      let size : length bs ≡ n = length-tabulate byte (base + off) n in
      let step = loop_round fuel k off len bs s more (d off want) in
      elim (last_or_more n want len (omega arith) (omega arith)) [
        | inl ends ↦
            subst (Complete byte base total off len)
              (sym (
                step
                ∙ send_last k off want len bs _ s
                    (subst (λ m. (m < want) ⊎ (m ≡ len)) (sym size) ends)))
              (Complete-last byte base total off len n (omega arith) (omega (arith, ends)))
        | inr (full, some_left) ↦
            subst (Complete byte base total off len)
              (sym (
                step
                ∙ send_more k off want len bs _ s (omega (arith, size, full))
                    (omega (arith, size, some_left))))
              (Complete-step byte base total fuel k off len (omega arith) small full some_left (
                dump_loop-Complete byte base total fuel (k + 1) (off + n) (len - n) s d
                  (omega arith) (omega arith) (omega arith)))
      ]

  -- A dump that nothing disturbs, of a source that delivers its bytes, for a request of at least one
  -- byte that ends below 2 ^ 32: it finishes; the chunks' payloads are together exactly the bytes from
  -- the offset on, as many as were asked for and are there; the chunks follow one another, fit a
  -- notification each, and the last one alone is marked so, also when the source has nothing at that
  -- offset.
  pub serve-Complete :
      (byte : ℕ → ℕ) (base total : ℕ) (r : Request)
      → Smooth env
      → Delivers byte base total
      → 0 < r.len
      → r.off + r.len < 4_294_967_296
      → Complete byte base total r.off r.len (serve read env r)
  unfolding serve
  serve-Complete byte base total r s d more small =
      dump_loop-Complete byte base total r.len 0 r.off r.len s d more (omega arith) small
