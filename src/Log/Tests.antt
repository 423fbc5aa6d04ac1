-- ===== src/Log/Tests.antt =====
-- Runs of the session log: src/imu/imu_log.c.
use moamoa_caterpillar_firmw.Base.{
  ◌≡◌, refl, [], ◌∷◌, arith, tabulate, get_or, take, List, ℕ, true, false, ◌+◌, ◌*◌, ◌≤◌, ◌<◌,
  length, replicate, some, none, subst, sym, ap, ◌∙◌, ◌⊎◌, inl, inr,
}
use moamoa_caterpillar_firmw.Flash.{got}
use moamoa_caterpillar_firmw.Flash.Ideal.{ideal, ideal-Works}
use moamoa_caterpillar_firmw.Imu.Shared.{zero_sample}
use moamoa_caterpillar_firmw.Log.State.{Log, ring_floor}
use moamoa_caterpillar_firmw.Log.Writer.{writer_run}
use moamoa_caterpillar_firmw.Log.Reading.{imu_log_read_session}
use moamoa_caterpillar_firmw.Log.Contents.{extend, history_byte}
use moamoa_caterpillar_firmw.Log.ReadBack.{imu_log_read_session-exact}
use moamoa_caterpillar_firmw.Log.Drain.{DrainOk, Drained, writer_run-Drained}
use mathlib.Core.List.{Perm}
use moamoa_caterpillar_firmw.Log.Sessions.{Session, slot_summary, imu_log_session_list}
use moamoa_caterpillar_firmw.Log.Pipeline.{run_session-Piped}
use moamoa_caterpillar_firmw.Log.Events.{append, batch, offered, run_session, Piped}
use moamoa_caterpillar_firmw.Log.Order.{somes, NewestFirst, imu_log_session_list-newest}
use moamoa_caterpillar_firmw.Errno.{ok}
use moamoa_caterpillar_firmw.Flash.{bytes, patch, flash_end}
use moamoa_caterpillar_firmw.Flash.Laws.{bytes-patch_apart}
use moamoa_caterpillar_firmw.Log.Entry.{
  Entry, dir_base, meta_bytes, entry_addr, entry_bytes, entry_of_bytes, session_read,
  session_of_read,
}
use moamoa_caterpillar_firmw.Log.Frame.{length-entry_bytes}
use moamoa_caterpillar_firmw.Log.Api.{stamp_matches, imu_log_init}
use moamoa_caterpillar_firmw.Log.Recovery.{SmallSeqs, imu_log_init-covers}
use moamoa_caterpillar_firmw.Log.Scenario.{
  nothing, first, second, entry, started, started-StageOk, empty-Holds, one_written,
  one_written-Holds, slot_0,
}

run_session-Piped_example :
    let es = append (first ∷ []) ∷ batch ∷ append (second ∷ []) ∷ [] in
    Piped nothing started (offered es) (run_session ideal es started)
unfolding offered
run_session-Piped_example =
    run_session-Piped ideal ideal-Works (append (first ∷ []) ∷ batch ∷ append (second ∷ []) ∷ [])
      nothing started
      (record {
        active = refl;
        stage_ok = started-StageOk;
        slot_ok = omega arith;
        head_small = omega arith;
        total_small = omega arith;
        count_small = omega arith;
      })
      (empty-Holds started.mem)

-- The same with two records staged.
abbrev two_staged : Log
two_staged = record started {
  stage = λ i. get_or (first ∷ second ∷ []) i zero_sample;
  stage_head = 2;
}

two_staged-DrainOk : DrainOk two_staged
two_staged-DrainOk = record {
  stage_ok = record {
    ordered = omega arith;
    no_wrap = omega arith;
    bounded = omega arith;
    dropped_fits = omega arith;
  };
  slot_ok = omega arith;
  small = omega arith;
  count_small = omega arith;
}

writer_run-Drained_example :
    Drained ideal ideal-Works nothing 2 two_staged (writer_run ideal 2 two_staged)
writer_run-Drained_example =
    writer_run-Drained ideal ideal-Works nothing 2 two_staged two_staged-DrainOk refl
      (empty-Holds two_staged.mem) (omega arith)

imu_log_read_session-exact_example :
    imu_log_read_session ideal one_written 1 2 100
    ≡ got (tabulate (history_byte (extend nothing 0 (first ∷ []))) 2 14)
unfolding ring_floor
imu_log_read_session-exact_example =
    imu_log_read_session-exact ideal ideal-Works one_written (extend nothing 0 (first ∷ [])) 1 0 2
      100 entry one_written-Holds (omega arith) (omega arith) slot_0 refl
      (λ j e h. absurd (omega arith)) (omega arith)

imu_log_session_list-newest_example :
    (sorted : List Session) × (imu_log_session_list ideal one_written 16 ≡ take 16 sorted)
    × NewestFirst sorted
    × Perm sorted (somes (tabulate (slot_summary ideal one_written) 0 16))
imu_log_session_list-newest_example = imu_log_session_list-newest ideal one_written 16

-- A directory with the stamp of firmware 1 and the open session 1, as power was lost.
abbrev after_power_loss : Log
after_power_loss = record started {
  mem = patch started.mem dir_base (meta_bytes 1);
  total_abs = 0;
  seq_next = 1;
  active = false;
}

loss-stamp : stamp_matches 1 (ideal.read after_power_loss.mem dir_base 32) ≡ true
unfolding stamp_matches patch meta_bytes entry_bytes entry_addr
loss-stamp = refl

loss-slot_0 : session_read ideal after_power_loss.mem 0 ≡ some entry
unfolding session_read session_of_read entry_of_bytes entry_bytes entry_addr patch meta_bytes
loss-slot_0 = refl

length-meta_bytes : length (meta_bytes 1) ≡ 32
unfolding meta_bytes
length-meta_bytes = refl

-- The other slots are erased.
other_slots :
    (i : ℕ) → 0 < i → i < 16 → bytes after_power_loss.mem (entry_addr i) 32 ≡ replicate 32 255
unfolding entry_addr
other_slots i lo hi =
    bytes-patch_apart started.mem dir_base (meta_bytes 1) (dir_base + (i + 1) * 32) 32
      (omega (arith, length-meta_bytes))
    ∙ bytes-patch_apart (λ x. 255) (dir_base + (0 + 1) * 32) (entry_bytes entry)
        (dir_base + (i + 1) * 32) 32 (omega (arith, length-entry_bytes entry))

blank_slot : (i : ℕ) → 0 < i → i < 16 → session_read ideal after_power_loss.mem i ≡ none
unfolding session_read session_of_read entry_of_bytes
blank_slot i lo hi = ap (session_of_read ideal) (
    ideal-Works.reads after_power_loss.mem (entry_addr i) 32 (addr_fits i hi)
    ∙ ap got (other_slots i lo hi))
  where
    addr_fits : (i : ℕ) → i < 16 → entry_addr i + 32 ≤ flash_end
    addr_fits i hi = unfold entry_addr in omega arith

loss-SmallSeqs : SmallSeqs ideal ideal-Works after_power_loss.mem
loss-SmallSeqs i e hi found = elim (first_or_other i) [
  | inl first_slot ↦
      let here = subst (λ k. session_read ideal after_power_loss.mem k ≡ some e) first_slot found in
      subst (λ (x : Entry). x.seq + 1 < 4_294_967_296) (same entry e (sym loss-slot_0 ∙ here))
        (omega arith)
  | inr other ↦ nothing_there e (sym (blank_slot i other hi) ∙ found)
]
  where
    first_or_other : (i : ℕ) → (i ≡ 0) ⊎ (0 < i)
    first_or_other i = omega arith

    same : (a b : Entry) → some a ≡ some b → a ≡ b
    same a b h = cc

    nothing_there : (a : Entry) → none ≡ some a → a.seq + 1 < 4_294_967_296
    nothing_there a h = absurd (cc)

imu_log_init-covers_example :
    let (st, l') = imu_log_init ideal 1 after_power_loss in
    (st ≡ ok) × (0 + 0 ≤ l'.total_abs) × (1 < l'.seq_next)
imu_log_init-covers_example =
    imu_log_init-covers ideal ideal-Works 1 0 after_power_loss entry loss-stamp loss-SmallSeqs
      (omega arith) loss-slot_0 (omega arith) (omega arith)
