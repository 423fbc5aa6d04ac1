-- ===== src/Log/Recovery.antt =====
-- What the boot of src/imu/imu_log.c rebuilds from the directory.
use moamoa_caterpillar_firmw.Base.{
  ℕ, zero, suc, ◌+◌, ◌≤◌, ◌<◌, ◌≡◌, ◌≢◌, refl, ap, sym, subst, ◌∙◌, ◌⊎◌, inl, inr, true, not,
  Bool-cases, Option-cases, some, arith, ◌==◌,
}
use moamoa_caterpillar_firmw.Errno.{Status, ok}
use moamoa_caterpillar_firmw.Flash.{Mem, FlashDevice, Works, got}
use moamoa_caterpillar_firmw.Flash.Laws.{bytes-patch_apart}
use moamoa_caterpillar_firmw.Log.Entry.{
  Entry, entry_bytes, entry_addr, session_read, session_of_read, entry_write, max_sessions,
  dir_base,
}
use moamoa_caterpillar_firmw.Log.State.{Log}
use moamoa_caterpillar_firmw.Log.Api.{
  counted_entry, close_entry, recover_counters, recover_entry, recover_slot, recover_from,
  stamp_matches, imu_log_init,
}
use moamoa_caterpillar_firmw.Log.Frame.{entry_write_lem, length-entry_bytes}

module _ (fl : FlashDevice) (works : Works fl) where
  -- The sequence numbers of the directory are far from wrapping.
  abbrev pub SmallSeqs : Mem → Type 0
  SmallSeqs m =
      (i : ℕ) (e : Entry)
      → i < max_sessions
      → session_read fl m i ≡ some e
      → e.seq + 1 < 4_294_967_296

  session_read-apart :
      (m : Mem) (i j : ℕ) (e : Entry)
      → i < max_sessions
      → j < max_sessions
      → i ≢ j
      → session_read fl (entry_write fl m i e).1 j ≡ session_read fl m j
  unfolding session_read entry_addr
  session_read-apart m i j e hi hj ne = rw (entry_write_lem fl works m i e hi) (
      ap (session_of_read fl) (
        works.reads _ _ 32 (omega arith)
        ∙ ap got (
            bytes-patch_apart m (entry_addr i) (entry_bytes e) (entry_addr j) 32
              (omega (arith, length-entry_bytes e, ne)))
        ∙ sym (works.reads m _ 32 (omega arith))))

  -- One slot: the other slots read as before, the counters do not go down, and a session in the
  -- slot is covered.
  record Recovered (i : ℕ) (l l' : Log) : Type 0 where
    others : (j : ℕ) → j < max_sessions → i ≢ j → session_read fl l'.mem j ≡ session_read fl l.mem j
    total_up : l.total_abs ≤ l'.total_abs
    seq_up : l.seq_next ≤ l'.seq_next
    covered :
        (e : Entry)
        → session_read fl l.mem i ≡ some e
        → e.rec_count ≢ 0xFFFFFFFF
        → e.start_rec + e.rec_count < 4_294_967_296
        → (e.start_rec + e.rec_count ≤ l'.total_abs) × (e.seq < l'.seq_next)

  recover_counters-covers :
      (e : Entry) (l : Log)
      → e.seq + 1 < 4_294_967_296
      → let l' = recover_counters fl e l in
        (l.total_abs ≤ l'.total_abs)
        × (l.seq_next ≤ l'.seq_next)
        × (e.seq < l'.seq_next)
        × (e.start_rec + e.rec_count < 4_294_967_296 → e.start_rec + e.rec_count ≤ l'.total_abs)
  unfolding recover_counters
  recover_counters-covers e l small = ground arith

  counted_lem :
      (e : Entry)
      → ((counted_entry e).seq ≡ e.seq) × (e.rec_count ≢ 0xFFFFFFFF → counted_entry e ≡ e)
  unfolding counted_entry
  counted_lem e = ground arith

  close_entry-others :
      (i : ℕ) (e : Entry) (l : Log) (j : ℕ)
      → i < max_sessions
      → j < max_sessions
      → i ≢ j
      → session_read fl (close_entry fl i e l).mem j ≡ session_read fl l.mem j
  unfolding close_entry
  close_entry-others i e l j hi hj ne = elim (Bool-cases (not (e.opened == 0))) [
    | inr closed ↦ rw closed refl
    | inl open_entry ↦ rw open_entry (session_read-apart l.mem i j _ hi hj ne)
  ]

  close_entry-counters :
      (i : ℕ) (e : Entry) (l : Log)
      → ((close_entry fl i e l).total_abs ≡ l.total_abs)
        × ((close_entry fl i e l).seq_next ≡ l.seq_next)
  unfolding close_entry
  close_entry-counters i e l = ground arith

  recover_entry-Recovered :
      (i : ℕ) (e : Entry) (l : Log)
      → i < max_sessions
      → session_read fl l.mem i ≡ some e
      → e.seq + 1 < 4_294_967_296
      → Recovered i l (recover_entry fl i e l)
  unfolding recover_entry
  recover_entry-Recovered i e l hi found small =
      let c = counted_entry e in
      let l1 = close_entry fl i c l in
      let (same_seq, same) = counted_lem e in
      let (t, s) = close_entry-counters i c l in
      let (total_up, seq_up, seq_ok, end_ok) =
        recover_counters-covers c l1 (omega (arith, same_seq)) in
      record {
        others = λ j hj ne. close_entry-others i c l j hi hj ne;
        total_up = omega (arith, t, total_up);
        seq_up = omega (arith, s, seq_up);
        covered = λ e' found' count fits.
            let e1 : e ≡ e' = some_inj e e' (sym found ∙ found') in
            subst
              (λ (x : Entry).
                (x.start_rec + x.rec_count ≤ (recover_counters fl c l1).total_abs)
                × (x.seq < (recover_counters fl c l1).seq_next))
              (same (subst (λ (x : Entry). x.rec_count ≢ 0xFFFFFFFF) (sym e1) count) ∙ e1)
              (
                end_ok (
                    subst (λ (x : Entry). x.start_rec + x.rec_count < 4_294_967_296)
                      (sym (
                        same (subst (λ (x : Entry). x.rec_count ≢ 0xFFFFFFFF) (sym e1) count) ∙ e1))
                      fits),
                seq_ok,
              );
      }
    where
      some_inj : (a b : Entry) → some a ≡ some b → a ≡ b
      some_inj a b h = cc

  recover_slot-Recovered :
      (i : ℕ) (l : Log)
      → i < max_sessions
      → ((e : Entry) → session_read fl l.mem i ≡ some e → e.seq + 1 < 4_294_967_296)
      → Recovered i l (recover_slot fl i l)
  unfolding recover_slot
  recover_slot-Recovered i l hi small = elim (Option-cases (session_read fl l.mem i)) [
    | inl empty ↦
        rw (empty, recover_slot)
          (record {
            others = λ j hj ne. refl;
            total_up = omega arith;
            seq_up = omega arith;
            covered = λ e found count fits. absurd (cc);
          })
    | inr (e, found) ↦
        rw (found, recover_slot) (recover_entry-Recovered i e l hi found (small e found))
  ]

  -- The rest of the loop.
  recover_from-covers :
      (n i : ℕ) (l : Log)
      → i + n ≤ max_sessions
      → ((j : ℕ) (e : Entry)
          → i ≤ j
          → j < i + n
          → session_read fl l.mem j ≡ some e
          → e.seq + 1 < 4_294_967_296)
      → let l' = recover_from fl n i l in
        (l.total_abs ≤ l'.total_abs)
        × (l.seq_next ≤ l'.seq_next)
        × ((j : ℕ) (e : Entry)
            → i ≤ j
            → j < i + n
            → session_read fl l.mem j ≡ some e
            → e.rec_count ≢ 0xFFFFFFFF
            → e.start_rec + e.rec_count < 4_294_967_296
            → (e.start_rec + e.rec_count ≤ l'.total_abs) × (e.seq < l'.seq_next))
  unfolding recover_from
  recover_from-covers zero i l fits small =
      (omega arith, omega arith, λ j e lo up. absurd (omega arith))
  recover_from-covers (suc n) i l fits small =
      let l1 = recover_slot fl i l in
      let r =
        recover_slot-Recovered i l (omega arith) (λ e. small i e (omega arith) (omega arith)) in
      let (total_up, seq_up, rest) =
        recover_from-covers n (i + 1) l1 (omega arith) (λ j e lo up found.
          small j e (omega arith) (omega arith)
            (sym (r.others j (omega arith) (omega arith)) ∙ found)) in
      (
        omega (arith, r.total_up, total_up),
        omega (arith, r.seq_up, seq_up),
        λ j e lo up found count fits_end. elim (this_or_later i j lo) [
          | inl this ↦
              let c =
                r.covered e (subst (λ k. session_read fl l.mem k ≡ some e) (sym this) found) count
                  fits_end in
              (omega (arith, c.0, total_up), omega (arith, c.1, seq_up))
          | inr later ↦
              rest j e later (omega arith) (r.others j (omega arith) (omega arith) ∙ found) count
                fits_end
        ],
      )
    where
      this_or_later : (i j : ℕ) → i ≤ j → (i ≡ j) ⊎ (i + 1 ≤ j)
      this_or_later i j h = omega arith

  init-stamped :
      (fw_version : ℕ) (l : Log)
      → stamp_matches fw_version (fl.read l.mem dir_base 32) ≡ true
      → imu_log_init fl fw_version l ≡ (ok, recover_from fl max_sessions 0 l)
  unfolding imu_log_init
  init-stamped fw_version l stamped = ground (arith, works.is_ready, stamped)

  -- A boot with the stamp of this firmware on the directory: for each session of the directory whose
  -- count was written, the flash ring is taken to be used up to its end at least, and the next
  -- session gets a higher number, so that no later session writes over it before the ring is full.
  pub imu_log_init-covers :
      (fw_version i : ℕ) (l : Log) (e : Entry)
      → stamp_matches fw_version (fl.read l.mem dir_base 32) ≡ true
      → SmallSeqs l.mem
      → i < max_sessions
      → session_read fl l.mem i ≡ some e
      → e.rec_count ≢ 0xFFFFFFFF
      → e.start_rec + e.rec_count < 4_294_967_296
      → let (st, l') = imu_log_init fl fw_version l in
        (st ≡ ok) × (e.start_rec + e.rec_count ≤ l'.total_abs) × (e.seq < l'.seq_next)
  imu_log_init-covers fw_version i l e stamped small hi found count fits =
      let (total_up, seq_up, covers) =
        recover_from-covers max_sessions 0 l (omega arith) (λ j e lo up. small j e up) in
      let c = covers i e (omega arith) hi found count fits in
      subst
        (λ (r : Status × Log).
          (r.0 ≡ ok) × (e.start_rec + e.rec_count ≤ r.1.total_abs) × (e.seq < r.1.seq_next))
        (sym (init-stamped fw_version l stamped)) (refl, c.0, c.1)
