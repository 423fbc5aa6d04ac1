-- ===== src/Settings/Persist.antt =====
-- The two flash slots of settings_store.c: what a boot reads back after a persist, and after a
-- persist that a power cut tore.
use moamoa_caterpillar_firmw.Base.{
  ℕ, ◌+◌, ◌%◌, ◌≤◌, ◌<◌, ◌≡◌, refl, ap, sym, subst, ◌∙◌, ◌⊎◌, inl, inr, false, List, Option, none,
  some, arith, length, AllBelow, tabulate-ext,
}
use moamoa_caterpillar_firmw.Errno.{ok}
use moamoa_caterpillar_firmw.Flash.{Mem, FlashDevice, Works, got, bytes, patch}
use moamoa_caterpillar_firmw.Flash.Laws.{bytes-patch, bytes-patch_apart}
use moamoa_caterpillar_firmw.Settings.Store.{
  StoreRec, Store, store_magic, slot_addr, crc_bytes, rec_bytes, rec_crc, check_slot, load_slot,
  choose, settings_store_init, stamp, persist_work_fn,
}
use moamoa_caterpillar_firmw.Settings.Ranges.{InRange}
use moamoa_caterpillar_firmw.Settings.Records.{
  Fits, length-rec_bytes, rec_of_bytes-rec_bytes, sanitize-table,
}

module _ (crc32 : List ℕ → ℕ) (fl : FlashDevice) (works : Works fl) where
  -- A record as `persist_work_fn` stamps it.
  pub record IsStamped (r : StoreRec) : Type 0 where
    pub fits : Fits r
    pub magic_ok : r.magic ≡ store_magic
    pub crc_ok : r.crc ≡ crc32 (crc_bytes r)

  load_slot-stamped :
      (mem : Mem) (i : ℕ) (r : StoreRec)
      → i < 2
      → IsStamped r
      → bytes mem (slot_addr i) 32 ≡ rec_bytes r
      → load_slot crc32 fl mem i ≡ some r
  unfolding load_slot rec_crc
  load_slot-stamped mem i r h s e =
      ground
        (arith, works.reads mem (slot_addr i) 32 (omega arith), rec_of_bytes-rec_bytes r s.fits)

  -- The slot holds nothing newer than the generation.
  abbrev pub NoNewer : Mem → ℕ → ℕ → Type 0
  NoNewer mem i g =
      (load_slot crc32 fl mem i ≡ none)
      ⊎ ((q : StoreRec) × (load_slot crc32 fl mem i ≡ some q) × (q.generation ≤ g))

  parity : (g : ℕ) → (g % 2 ≡ 0) ⊎ (g % 2 ≡ 1)
  parity g = omega arith

  choose-low :
      (a b : Option StoreRec) (r : StoreRec) (g : ℕ)
      → r.generation ≡ g + 1
      → a ≡ some r
      → (b ≡ none) ⊎ ((q : StoreRec) × (b ≡ some q) × (q.generation ≤ g))
      → choose crc32 fl a b ≡ some r
  unfolding choose
  choose-low a b r g e l n = ground arith

  choose-high :
      (a b : Option StoreRec) (r : StoreRec) (g : ℕ)
      → r.generation ≡ g + 1
      → b ≡ some r
      → (a ≡ none) ⊎ ((q : StoreRec) × (a ≡ some q) × (q.generation ≤ g))
      → choose crc32 fl a b ≡ some r
  unfolding choose
  choose-high a b r g e l n = ground arith

  choose_slots :
      (mem : Mem) (r : StoreRec) (g : ℕ)
      → r.generation ≡ g + 1
      → load_slot crc32 fl mem (r.generation % 2) ≡ some r
      → NoNewer mem (g % 2) g
      → choose crc32 fl (load_slot crc32 fl mem 0) (load_slot crc32 fl mem 1) ≡ some r
  choose_slots mem r g e l n = elim (parity g) [
    | inl even ↦
        choose-high _ _ r g e
          (subst (λ i. load_slot crc32 fl mem i ≡ some r) {y = 1} (omega arith) l)
          (subst (λ i. NoNewer mem i g) even n)
    | inr odd ↦
        choose-low _ _ r g e
          (subst (λ i. load_slot crc32 fl mem i ≡ some r) {y = 0} (omega arith) l)
          (subst (λ i. NoNewer mem i g) odd n)
  ]

  -- One good slot beside one that fails its check.
  choose_only :
      (mem : Mem) (r : StoreRec) (g : ℕ)
      → load_slot crc32 fl mem (g % 2) ≡ some r
      → load_slot crc32 fl mem ((g + 1) % 2) ≡ none
      → choose crc32 fl (load_slot crc32 fl mem 0) (load_slot crc32 fl mem 1) ≡ some r
  unfolding choose
  choose_only mem r g l n = elim (parity g) [
    | inl even ↦
        let l' = subst (λ i. load_slot crc32 fl mem i ≡ some r) even l in
        let n' = subst (λ i. load_slot crc32 fl mem i ≡ none) {y = 1} (omega arith) n in rw (l', n')
    | inr odd ↦
        let l' = subst (λ i. load_slot crc32 fl mem i ≡ some r) odd l in
        let n' = subst (λ i. load_slot crc32 fl mem i ≡ none) {y = 0} (omega arith) n in rw (l', n')
  ]

  -- A boot takes over the chosen record, if its values are in range.
  init-chosen :
      (mem : Mem) (s : Store) (r : StoreRec)
      → choose crc32 fl (load_slot crc32 fl mem 0) (load_slot crc32 fl mem 1) ≡ some r
      → InRange r.values
      → (settings_store_init crc32 fl mem s).rec ≡ r
  unfolding settings_store_init
  init-chosen mem s r e v = ground (arith, works.is_ready, sanitize-table r.values v)

  -- The slot that a persist writes, and the one that it leaves.
  load_slot-untouched :
      (mem mem' : Mem) (i : ℕ)
      → i < 2
      → bytes mem' (slot_addr i) 32 ≡ bytes mem (slot_addr i) 32
      → load_slot crc32 fl mem' i ≡ load_slot crc32 fl mem i
  unfolding load_slot
  load_slot-untouched mem mem' i h e = ap (check_slot crc32 fl) (
      works.reads mem' (slot_addr i) 32 (omega arith)
      ∙ ap got e
      ∙ sym (works.reads mem (slot_addr i) 32 (omega arith)))

  -- What the store needs for a persist: values and generation that fit, and a live slot that holds
  -- no newer generation.
  pub record CanPersist (mem : Mem) (s : Store) : Type 0 where
    pub sized : length s.rec.values ≡ 10
    pub values_fit : AllBelow 65_536 s.rec.values
    pub magic_ok : s.rec.magic ≡ store_magic
    pub small : s.rec.generation + 1 < 4_294_967_296
    pub older : NoNewer mem (s.rec.generation % 2) s.rec.generation

  module _ (crc_fits : (bs : List ℕ) → crc32 bs < 4_294_967_296) where
    stamp-IsStamped : (mem : Mem) (s : Store) → CanPersist mem s → IsStamped (stamp crc32 fl s.rec)
    unfolding stamp rec_crc
    stamp-IsStamped mem s c = record {
      fits = record {
        magic_fits = rw c.magic_ok (omega arith);
        generation_fits = omega arith;
        sized = c.sized;
        values_fit = c.values_fit;
        crc_fits = crc_fits _;
      };
      magic_ok = c.magic_ok;
      crc_ok = refl;
    }

    generation-stamp :
        (s : Store)
        → s.rec.generation + 1 < 4_294_967_296
        → (stamp crc32 fl s.rec).generation ≡ s.rec.generation + 1
    unfolding stamp
    generation-stamp s h = omega arith

    persisted_bytes :
        (mem : Mem) (s : Store)
        → CanPersist mem s
        → let r = stamp crc32 fl s.rec in
          let mem' = patch mem (slot_addr (r.generation % 2)) (rec_bytes r) in
          (load_slot crc32 fl mem' (r.generation % 2) ≡ some r)
          × NoNewer mem' (s.rec.generation % 2) s.rec.generation
    persisted_bytes mem s c = (live, kept)
      where
        r : StoreRec
        r = stamp crc32 fl s.rec

        stamped : IsStamped r
        stamped = stamp-IsStamped mem s c

        size : length (rec_bytes r) ≡ 32
        size = length-rec_bytes r stamped.fits.sized

        live :
            load_slot crc32 fl
              (patch mem (slot_addr (r.generation % 2)) (rec_bytes r))
              (r.generation % 2)
            ≡ some r
        live = load_slot-stamped _ (r.generation % 2) r (omega arith) stamped (
            subst
              (λ n.
                bytes (patch mem (slot_addr (r.generation % 2)) (rec_bytes r))
                  (slot_addr (r.generation % 2)) n
                ≡ rec_bytes r)
              size (bytes-patch mem (slot_addr (r.generation % 2)) (rec_bytes r)))

        kept :
            NoNewer
              (patch mem (slot_addr (r.generation % 2)) (rec_bytes r))
              (s.rec.generation % 2)
              s.rec.generation
        kept =
            subst
              (λ (o : Option StoreRec).
                (o ≡ none) ⊎ ((q : StoreRec) × (o ≡ some q) × (q.generation ≤ s.rec.generation)))
              (sym (
                load_slot-untouched mem _ (s.rec.generation % 2) (omega arith) (
                  bytes-patch_apart mem (slot_addr (r.generation % 2)) (rec_bytes r)
                    (slot_addr (s.rec.generation % 2)) 32
                    (omega (arith, generation-stamp s c.small, size)))))
              c.older

    persist_work_fn_lem :
        (mem : Mem) (s : Store)
        → CanPersist mem s
        → persist_work_fn crc32 fl mem s ≡ (
          ok,
          patch mem
              (slot_addr ((stamp crc32 fl s.rec).generation % 2))
              (rec_bytes (stamp crc32 fl s.rec)),
          record s { rec = stamp crc32 fl s.rec; pending = false },
        )
    unfolding persist_work_fn patch stamp
    persist_work_fn_lem mem s c = rw (
        works.writes mem (slot_addr ((stamp crc32 fl s.rec).generation % 2))
          (rec_bytes (stamp crc32 fl s.rec))
          (omega
            (arith, length-rec_bytes (stamp crc32 fl s.rec) (stamp-IsStamped mem s c).fits.sized)))

    -- A persist on a working device succeeds, keeps the values, and is what the next boot loads;
    -- the slot that is now live holds no newer generation than the store's.
    pub persist_work_fn-reload :
        (mem : Mem) (s boot : Store)
        → CanPersist mem s
        → InRange s.rec.values
        → let (st, mem', s') = persist_work_fn crc32 fl mem s in
          (st ≡ ok)
          × (s'.rec.values ≡ s.rec.values)
          × ((settings_store_init crc32 fl mem' boot).rec ≡ s'.rec)
          × (s'.rec.generation ≡ s.rec.generation + 1)
          × NoNewer mem' (s'.rec.generation % 2) s'.rec.generation
    persist_work_fn-reload mem s boot c v =
        let r = stamp crc32 fl s.rec in
        let g = generation-stamp s c.small in
        let (live, kept) = persisted_bytes mem s c in
        let vals : r.values ≡ s.rec.values = unfold stamp in refl in
        rw (persist_work_fn_lem mem s c) (
          refl,
          vals,
          init-chosen _ boot r (choose_slots _ r s.rec.generation g live kept)
              (subst InRange (sym vals) v),
          g,
          inr (r, live, omega arith),
        )

    -- A power cut during the next persist: whatever the 32 bytes of the slot that it writes hold,
    -- if they do not pass the check then a boot loads the record that was live before.
    pub power_cut_keeps_old :
        (mem torn : Mem) (s boot : Store) (r : StoreRec)
        → IsStamped r
        → InRange r.values
        → s.rec.generation ≡ r.generation
        → r.generation + 1 < 4_294_967_296
        → bytes mem (slot_addr (r.generation % 2)) 32 ≡ rec_bytes r
        → let target = slot_addr ((stamp crc32 fl s.rec).generation % 2) in
          ((x : ℕ) → (x < target) ⊎ (target + 32 ≤ x) → torn x ≡ mem x)
          → load_slot crc32 fl torn ((stamp crc32 fl s.rec).generation % 2) ≡ none
          → (settings_store_init crc32 fl torn boot).rec ≡ r
    power_cut_keeps_old mem torn s boot r st v g small live out bad =
        init-chosen torn boot r
          (choose_only torn r r.generation
            (load_slot-stamped torn (r.generation % 2) r (omega arith) st (same ∙ live))
            (subst (λ n. load_slot crc32 fl torn (n % 2) ≡ none) next bad))
          v
      where
        next : (stamp crc32 fl s.rec).generation ≡ r.generation + 1
        next = omega (arith, generation-stamp s (omega arith), g)

        same :
            bytes torn (slot_addr (r.generation % 2)) 32
            ≡ bytes mem (slot_addr (r.generation % 2)) 32
        same =
            tabulate-ext torn mem (slot_addr (r.generation % 2)) (slot_addr (r.generation % 2)) 32
              (λ j p. out (slot_addr (r.generation % 2) + j) (omega (arith, next)))
