-- ===== src/Gatt/Link/Reachable.antt =====
-- The robot can be reached again, whatever happens to the connection: src/ble/ble_interface.c.
use moamoa_caterpillar_firmw.Base.{
  ℕ, ◌≡◌, refl, sym, ◌∙◌, subst, Bool, true, false, none, some, ◌==◌,
}
use moamoa_caterpillar_firmw.Errno.{Errno, Status, ok, err}
use moamoa_caterpillar_firmw.Flash.{FlashDevice}
use moamoa_caterpillar_firmw.Device.Session.{Device}
use moamoa_caterpillar_firmw.Gatt.Advert.{Advert}
use moamoa_caterpillar_firmw.Gatt.Link.{
  Link, Chip, Peer, ble_conn_request_params, restart_advertise, connected, disconnected, Step,
  establish, fail, lose, restart, request, elsewhere, Reach, here, next,
}

-- Connected, on the air, waiting for the restart of the advertising, or none of these.
pub data Alive (l : Link) : Type 0 where
  talking :
      (conn : ℕ)
      → l.connection ≡ some conn
      → l.cur_conn ≡ some conn
      → l.on_air ≡ none
      → l.restart_scheduled ≡ false
      → Alive l
  waiting :
      l.connection ≡ none
      → l.cur_conn ≡ none
      → l.on_air ≡ none
      → l.restart_scheduled ≡ true
      → Alive l
  visible :
      l.connection ≡ none
      → l.cur_conn ≡ none
      → l.on_air ≡ some l.ad
      → l.restart_scheduled ≡ false
      → Alive l

pub record Dead (l : Link) : Type 0 where
  pub connection : l.connection ≡ none
  pub cur_conn : l.cur_conn ≡ none
  pub on_air : l.on_air ≡ none
  pub restart_scheduled : l.restart_scheduled ≡ false

request-Alive : (slow : Bool) (l : Link) → Alive l → Alive (ble_conn_request_params slow l)
unfolding ble_conn_request_params
request-Alive slow l (talking conn c k a r) = rw (k, ble_conn_request_params) (talking conn c k a r)
request-Alive slow l (waiting c k a r) = rw (k, ble_conn_request_params) (waiting c k a r)
request-Alive slow l (visible c k a r) = rw (k, ble_conn_request_params) (visible c k a r)

establish-Alive :
    (conn : ℕ) (l : Link)
    → l.restart_scheduled ≡ false
    → Alive (connected conn 0 (record l { on_air = none; connection = some conn }))
unfolding connected ble_conn_request_params
establish-Alive conn l r = talking conn refl refl refl r

not_on_air : (l : Link) → l.on_air ≡ none → (b : Advert) → l.on_air ≡ some b → ⊥
not_on_air l a b e = absurd (cc)

off_schedule : (l : Link) (b : Advert) → Alive l → l.on_air ≡ some b → record {
  restart : l.restart_scheduled ≡ false;
  connection : l.connection ≡ none;
  cur_conn : l.cur_conn ≡ none;
}
off_schedule l b (talking conn c k a r) e = absurd (not_on_air l a b e)
off_schedule l b (waiting c k a r) e = absurd (not_on_air l a b e)
off_schedule l b (visible c k a r) e = record { restart = r; connection = c; cur_conn = k }

fail-Alive :
    (conn error : ℕ) (l : Link)
    → (error == 0) ≡ false
    → l.connection ≡ none
    → l.cur_conn ≡ none
    → Alive (connected conn error (record l { on_air = none }))
unfolding connected
fail-Alive conn error l e c k = rw e (waiting c k refl refl)

lose-Alive :
    (fl : FlashDevice) (rounds now conn : ℕ) (d : Device) (l : Link)
    → Alive l
    → l.connection ≡ some conn
    → Alive (disconnected fl rounds now d (record l { connection = none })).1
unfolding disconnected
lose-Alive fl rounds now conn d l (talking c0 c k a r) e = waiting refl refl a refl
lose-Alive fl rounds now conn d l (waiting c k a r) e = absurd (cc)
lose-Alive fl rounds now conn d l (visible c k a r) e = absurd (cc)

restart-Alive :
    (chip : Chip) (d : Device) (l : Link)
    → Alive l
    → l.restart_scheduled ≡ true
    → Alive (restart_advertise chip ok d l)
unfolding restart_advertise
restart-Alive chip d l (talking c0 c k a r) e = absurd (cc)
restart-Alive chip d l (waiting c k a r) e = visible c k refl refl
restart-Alive chip d l (visible c k a r) e = absurd (cc)

restart-Dead :
    (chip : Chip) (d : Device) (l : Link) (e : Errno)
    → Alive l
    → l.restart_scheduled ≡ true
    → Dead (restart_advertise chip (err e) d l)
unfolding restart_advertise
restart-Dead chip d l x (talking c0 c k a r) e = absurd (cc)
restart-Dead chip d l x (waiting c k a r) e = record {
  connection = c;
  cur_conn = k;
  on_air = a;
  restart_scheduled = refl;
}
restart-Dead chip d l x (visible c k a r) e = absurd (cc)

Alive-same : (l : Link) → Alive l → l.cur_conn ≡ l.connection
Alive-same l (talking conn c k a r) = k ∙ sym c
Alive-same l (waiting c k a r) = k ∙ sym c
Alive-same l (visible c k a r) = k ∙ sym c

no_connection : (l : Link) → Dead l → (conn : ℕ) → l.connection ≡ some conn → ⊥
no_connection l d conn e = let c = d.connection in absurd (cc)

not_scheduled : (l : Link) → Dead l → l.restart_scheduled ≡ true → ⊥
not_scheduled l d e = let c = d.restart_scheduled in absurd (cc)

request-Dead : (slow : Bool) (l : Link) → Dead l → Dead (ble_conn_request_params slow l)
unfolding ble_conn_request_params
request-Dead slow l d = rw (d.cur_conn, ble_conn_request_params) d

-- `bt_le_adv_start` succeeds.
abbrev pub Succeeds : Status → Type 0
Succeeds st = st ≡ ok

-- It may return anything.
abbrev pub Anything : Status → Type 0
Anything st = Unit {0}

module _ (chip : Chip) (fl : FlashDevice) where
  Step-Alive : {s t : Peer} → Step chip fl Succeeds s t → Alive s.link → Alive t.link
  Step-Alive {s} (establish conn a e) v =
      establish-Alive conn s.link (off_schedule s.link a v e).restart
  Step-Alive {s} (fail conn error a e n) v =
      let o = off_schedule s.link a v e in fail-Alive conn error s.link n o.connection o.cur_conn
  Step-Alive {s} (lose conn rounds now e) v = lose-Alive fl rounds now conn s.device s.link v e
  Step-Alive {s} (restart started good e) v =
      subst (λ st. Alive (restart_advertise chip st s.device s.link)) (sym good)
        (restart-Alive chip s.device s.link v e)
  Step-Alive {s} (request slow) v = request-Alive slow s.link v
  Step-Alive {s} (elsewhere d) v = v

  Reach-Alive : {s t : Peer} → Reach chip fl Succeeds s t → Alive s.link → Alive t.link
  Reach-Alive here v = v
  Reach-Alive (next r st) v = Step-Alive st (Reach-Alive r v)

  -- A central that wants to connect, by number.
  abbrev Connects : ℕ → Peer → Type 0
  Connects conn s =
      (t : Peer) × Reach chip fl Succeeds s t
      × (t.link.connection ≡ some conn)
      × (t.link.cur_conn ≡ some conn)

  trans-Connects :
      (conn : ℕ) (s t : Peer) → Step chip fl Succeeds s t → Connects conn t → Connects conn s
  trans-Connects conn s t st (u, r, c, k) = (u, before st r, c, k)
    where
      before :
          {s t u : Peer}
          → Step chip fl Succeeds s t
          → Reach chip fl Succeeds t u
          → Reach chip fl Succeeds s u
      before st here = next here st
      before st (next r st') = next (before st r) st'

  visible-Connects : (conn : ℕ) (s : Peer) (a : Advert) → s.link.on_air ≡ some a → Connects conn s
  unfolding connected ble_conn_request_params
  visible-Connects conn s a e = (_, next here (establish conn a e), refl, refl)

  restart-on_air :
      (d : Device) (l : Link) → let l1 = restart_advertise chip ok d l in l1.on_air ≡ some l1.ad
  unfolding restart_advertise
  restart-on_air d l = refl

  waiting-Connects : (conn : ℕ) (s : Peer) → s.link.restart_scheduled ≡ true → Connects conn s
  waiting-Connects conn s e =
      trans-Connects conn s (record s { link = restart_advertise chip ok s.device s.link })
        (restart ok refl e) (visible-Connects conn _ _ (restart-on_air s.device s.link))

  lose-scheduled :
      (rounds now : ℕ) (d : Device) (l : Link)
      → (disconnected fl rounds now d l).1.restart_scheduled ≡ true
  unfolding disconnected
  lose-scheduled rounds now d l = refl

  Alive-Connects : (conn : ℕ) (s : Peer) → Alive s.link → Connects conn s
  Alive-Connects conn s (talking old c k a r) =
      let l = record s.link { connection = none } in
      let t = disconnected fl 0 0 s.device l in
      trans-Connects conn s (record { device = t.0; link = t.1 }) (lose old 0 0 c)
        (waiting-Connects conn _ (lose-scheduled 0 0 s.device l))
  Alive-Connects conn s (waiting c k a r) = waiting-Connects conn s r
  Alive-Connects conn s (visible c k a r) = visible-Connects conn s s.link.ad a

  -- If `bt_le_adv_start` succeeds each time: whatever happens from a state on in which the robot is
  -- connected, on the air, or waiting for the restart of its advertising, it is in just one of these,
  -- `cur_conn` is the connection that exists, and any central can still get a connection with it.
  pub Reach-reconnects :
      (s t : Peer)
      → Alive s.link
      → Reach chip fl Succeeds s t
      → (conn : ℕ)
      → Alive t.link
        × (t.link.cur_conn ≡ t.link.connection)
        × ((u : Peer) × Reach chip fl Succeeds t u
            × (u.link.connection ≡ some conn)
            × (u.link.cur_conn ≡ some conn))
  Reach-reconnects s t v r conn =
      let v' = Reach-Alive r v in (v', Alive-same t.link v', Alive-Connects conn t v')

  Step-Dead : {s t : Peer} → Step chip fl Anything s t → Dead s.link → Dead t.link
  Step-Dead {s} (establish conn a e) v = absurd (not_on_air s.link v.on_air a e)
  Step-Dead {s} (fail conn error a e n) v = absurd (not_on_air s.link v.on_air a e)
  Step-Dead {s} (lose conn rounds now e) v = absurd (no_connection s.link v conn e)
  Step-Dead {s} (restart started may e) v = absurd (not_scheduled s.link v e)
  Step-Dead {s} (request slow) v = request-Dead slow s.link v
  Step-Dead {s} (elsewhere d) v = v

  -- A restart of the advertising that fails is not tried again: the robot is then neither connected
  -- nor on the air, nor waiting, and stays so whatever happens, and whatever `bt_le_adv_start` would
  -- return now.
  pub restart-fails_for_good :
      (e : Errno) (s t : Peer)
      → Alive s.link
      → s.link.restart_scheduled ≡ true
      → Reach chip fl Anything
          (record s { link = restart_advertise chip (err e) s.device s.link })
          t
      → Dead t.link
  restart-fails_for_good e s t v scheduled r =
      stays r (restart-Dead chip s.device s.link e v scheduled)
    where
      stays : {a b : Peer} → Reach chip fl Anything a b → Dead a.link → Dead b.link
      stays here d = d
      stays (next r st) d = Step-Dead st (stays r d)
