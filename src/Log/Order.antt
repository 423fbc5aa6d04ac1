-- ===== src/Log/Order.antt =====
-- The order of the session list of src/imu/imu_log.c.
use mathlib.Core.List.{Perm, perm_middle}
use mathlib.Core.List.Perm
use moamoa_caterpillar_firmw.Base.{
  ℕ, ◌≤◌, ◌≡◌, refl, inl, inr, Bool-cases, List, [], ◌∷◌, ◌++◌, append-nil, sym, subst, arith, ltb,
  ltb→lt, not_ltb→le, take, zero, suc, ◌+◌, ap, Option, none, some, Option-cases, tabulate,
}
use moamoa_caterpillar_firmw.Flash.{FlashDevice}
use moamoa_caterpillar_firmw.Log.Entry.{max_sessions}
use moamoa_caterpillar_firmw.Log.State.{Log}
use moamoa_caterpillar_firmw.Log.Sessions.{
  Session, insert_session, sort_sessions, from_start, collect, slot_summary, imu_log_session_list,
}

abbrev Ascending : List Session → Type 0
Ascending [] = Unit {0}
Ascending (x ∷ []) = Unit {0}
Ascending (x ∷ y ∷ ys) = (x.seq ≤ y.seq) × Ascending (y ∷ ys)

abbrev pub NewestFirst : List Session → Type 0
NewestFirst [] = Unit {0}
NewestFirst (x ∷ []) = Unit {0}
NewestFirst (x ∷ y ∷ ys) = (y.seq ≤ x.seq) × NewestFirst (y ∷ ys)

-- The first of a list is no older than a session.
abbrev AtLeast : ℕ → List Session → Type 0
AtLeast n [] = Unit {0}
AtLeast n (x ∷ xs) = n ≤ x.seq

Ascending-cons :
    (x : Session) (xs : List Session) → AtLeast x.seq xs → Ascending xs → Ascending (x ∷ xs)
Ascending-cons x [] h a = tt
Ascending-cons x (y ∷ ys) h a = (h, a)

Ascending-tail : (x : Session) (xs : List Session) → Ascending (x ∷ xs) → Ascending xs
Ascending-tail x [] a = tt
Ascending-tail x (y ∷ ys) a = a.1

Ascending-head : (x : Session) (xs : List Session) → Ascending (x ∷ xs) → AtLeast x.seq xs
Ascending-head x [] a = tt
Ascending-head x (y ∷ ys) a = a.0

insert-AtLeast :
    (n : ℕ) (x : Session) (ys : List Session)
    → n ≤ x.seq
    → AtLeast n ys
    → AtLeast n (insert_session x ys)
unfolding insert_session
insert-AtLeast n x [] h k = h
insert-AtLeast n x (y ∷ ys) h k = elim (Bool-cases (ltb y.seq x.seq)) [
  | inl past ↦ rw past k
  | inr here ↦ rw here h
]

insert-Ascending :
    (x : Session) (ys : List Session) → Ascending ys → Ascending (insert_session x ys)
unfolding insert_session
insert-Ascending x [] a = tt
insert-Ascending x (y ∷ ys) a = elim (Bool-cases (ltb y.seq x.seq)) [
  | inl past ↦ rw past (
      Ascending-cons y (insert_session x ys)
        (insert-AtLeast y.seq x ys (omega (arith, ltb→lt y.seq x.seq past)) (Ascending-head y ys a))
        (insert-Ascending x ys (Ascending-tail y ys a)))
  | inr here ↦ rw here (not_ltb→le y.seq x.seq here, a)
]

insert-Perm : (x : Session) (ys : List Session) → Perm (insert_session x ys) (x ∷ ys)
unfolding insert_session
insert-Perm x [] = Perm.refl (x ∷ [])
insert-Perm x (y ∷ ys) = elim (Bool-cases (ltb y.seq x.seq)) [
  | inl past ↦ rw past (Perm.trans (Perm.cons y (insert-Perm x ys)) (Perm.swap x y ys))
  | inr here ↦ rw here (Perm.refl (x ∷ y ∷ ys))
]

sort-Ascending : (xs done : List Session) → Ascending done → Ascending (sort_sessions done xs)
unfolding sort_sessions
sort-Ascending [] done a = a
sort-Ascending (x ∷ xs) done a =
    sort-Ascending xs (insert_session x done) (insert-Ascending x done a)

sort-Perm : (xs done : List Session) → Perm (sort_sessions done xs) (xs ++ done)
unfolding sort_sessions
sort-Perm [] done = Perm.refl done
sort-Perm (x ∷ xs) done =
    Perm.trans (sort-Perm xs (insert_session x done))
      (Perm.trans (Perm.append_left xs (insert-Perm x done)) (perm_middle xs done))

-- The first of a list is no newer than a session.
abbrev AtMost : List Session → List Session → Type 0
AtMost [] out = Unit {0}
AtMost (x ∷ xs) [] = Unit {0}
AtMost (x ∷ xs) (y ∷ ys) = y.seq ≤ x.seq

from_start-NewestFirst :
    (xs out : List Session)
    → Ascending xs
    → AtMost xs out
    → NewestFirst out
    → NewestFirst (from_start xs out)
unfolding from_start
from_start-NewestFirst [] out a l d = d
from_start-NewestFirst (x ∷ xs) out a l d =
    from_start-NewestFirst xs (x ∷ out) (Ascending-tail x xs a) (next_head x xs a)
      (newest_cons x out l d)
  where
    next_head : (x : Session) (xs : List Session) → Ascending (x ∷ xs) → AtMost xs (x ∷ out)
    next_head x [] a = tt
    next_head x (y ∷ ys) a = a.0

    newest_cons :
        (x : Session) (out : List Session)
        → AtMost (x ∷ xs) out
        → NewestFirst out
        → NewestFirst (x ∷ out)
    newest_cons x [] l d = tt
    newest_cons x (y ∷ ys) l d = (l, d)

from_start-Perm : (xs out : List Session) → Perm (from_start xs out) (xs ++ out)
unfolding from_start
from_start-Perm [] out = Perm.refl out
from_start-Perm (x ∷ xs) out = Perm.trans (from_start-Perm xs (x ∷ out)) (perm_middle xs out)

-- The values that are there.
abbrev pub somes : List (Option Session) → List Session
somes [] = []
somes (none ∷ xs) = somes xs
somes (some x ∷ xs) = x ∷ somes xs

collect-somes :
    (fl : FlashDevice) (l : Log) (n i : ℕ)
    → collect fl l n i ≡ somes (tabulate (slot_summary fl l) i n)
unfolding collect
collect-somes fl l zero i = refl
collect-somes fl l (suc n) i = elim (Option-cases (slot_summary fl l i)) [
  | inl e ↦ rw (e, collect) (collect-somes fl l n (i + 1))
  | inr (x, e) ↦ rw (e, collect) (ap (λ t. x ∷ t) (collect-somes fl l n (i + 1)))
]

-- The session list is the front, as much of it as was asked for, of the sessions that the slots 0 to
-- 15 of the directory show, each slot's once, the newest first.
pub imu_log_session_list-newest :
    (fl : FlashDevice) (l : Log) (most : ℕ)
    → (sorted : List Session) × (imu_log_session_list fl l most ≡ take most sorted)
      × NewestFirst sorted
      × Perm sorted (somes (tabulate (slot_summary fl l) 0 16))
unfolding imu_log_session_list
imu_log_session_list-newest fl l most =
    let found = collect fl l max_sessions 0 in
    let up = sort_sessions [] found in
    (
      from_start up [],
      refl,
      from_start-NewestFirst up [] (sort-Ascending found [] tt) (no_out up) tt,
      subst (Perm (from_start up [])) (collect-somes fl l 16 0) (
          Perm.trans (from_start-Perm up []) (
            subst (λ t. Perm t found) (sym (append-nil up))
              (subst (λ t. Perm up t) (append-nil found) (sort-Perm found [])))),
    )
  where
    no_out : (xs : List Session) → AtMost xs []
    no_out [] = tt
    no_out (x ∷ xs) = tt
