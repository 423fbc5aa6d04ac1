-- ===== src/Gatt/Link/Tests.antt =====
-- Runs of the connection's life and of the advertising data: src/ble/ble_interface.c.
use moamoa_caterpillar_firmw.Base.{
  ◌≤◌, ◌≡◌, ◌⊎◌, ◌<◌, refl, true, false, some, none, [], ◌∷◌, ◌==◌, get_or, length,
}
use moamoa_caterpillar_firmw.Errno.{ok, err, enomem}
use moamoa_caterpillar_firmw.Flash.Ideal.{ideal}
use moamoa_caterpillar_firmw.Settings.Registry.{robot_id}
use moamoa_caterpillar_firmw.Settings.Store.{settings_get, settings_set}
use moamoa_caterpillar_firmw.Settings.Ranges.{settings_set-IsValid}
use moamoa_caterpillar_firmw.Device.Scenario.{booted, booted-IsValid, logging}
use moamoa_caterpillar_firmw.Gatt.Advert.{
  Version, adv_name, build_ad, air_bytes, shown_id, build_ad-tells,
}
use moamoa_caterpillar_firmw.Gatt.Link.{
  Link, Chip, Peer, connected, disconnected, restart_advertise, Reach, here, next, establish, lose,
  ble_interface_init,
}
use moamoa_caterpillar_firmw.Gatt.Link.Reachable.{
  Alive, waiting, visible, Dead, Succeeds, Reach-reconnects, restart-fails_for_good,
}

abbrev version : Version
version = record { major = 2; minor = 1; patch = 0 }

abbrev chip : Chip
chip = record { uid = 1 ∷ 2 ∷ 3 ∷ 4 ∷ 5 ∷ 6 ∷ 0xA1 ∷ 0x0F ∷ []; version = version }

abbrev off : Link
off = record {
  cur_conn = none;
  ad = record { name = []; mfg = [] };
  restart_scheduled = false;
  param_updates = [];
  phy_updates = [];
  connection = none;
  on_air = none;
}

-- Behind `ble_interface_init`.
started : Peer
started = record { device = logging; link = (ble_interface_init chip ok ok logging off).1 }

started-Alive : Alive started.link
unfolding started ble_interface_init
started-Alive = visible refl refl refl refl

-- A central takes the robot and goes again.
taken : Peer
taken = record started {
  link = connected 3 0 (record started.link { on_air = none; connection = some 3 });
}

left : Peer
left =
    let r = disconnected ideal 10 8000 taken.device (record taken.link { connection = none }) in
    record { device = r.0; link = r.1 }

left-Reach : Reach chip ideal Succeeds started left
unfolding left taken started ble_interface_init connected
left-Reach = next (next here (establish 3 _ refl)) (lose 3 10 8000 refl)

Reach-reconnects_example :
    Alive left.link
    × (left.link.cur_conn ≡ left.link.connection)
    × ((u : Peer) × Reach chip ideal Succeeds left u
        × (u.link.connection ≡ some 5)
        × (u.link.cur_conn ≡ some 5))
Reach-reconnects_example = Reach-reconnects chip ideal started left started-Alive left-Reach 5

left-waiting : left.link.restart_scheduled ≡ true
unfolding left disconnected
left-waiting = refl

left-Alive : Alive left.link
unfolding left disconnected taken started connected ble_interface_init
left-Alive = waiting refl refl refl refl

restart-fails_for_good_example : Dead (restart_advertise chip (err enomem) left.device left.link)
restart-fails_for_good_example =
    restart-fails_for_good chip ideal enomem left
      (record left { link = restart_advertise chip (err enomem) left.device left.link }) left-Alive
      left-waiting here

-- Robot 7, during a session.
build_ad-tells_example :
    let s = settings_set booted robot_id 7 in
    let a = build_ad chip.uid version s true in
    let id = settings_get s robot_id in
    (air_bytes a ≤ 31)
    × (get_or a.mfg 2 0 ≡ id)
    × ((get_or a.mfg 6 0 == 1) ≡ true)
    × (((0 < id) × (length a.name ≡ 6) × (shown_id a.name ≡ id)) ⊎ ((id ≡ 0) × (length a.name ≡ 8)))
build_ad-tells_example =
    build_ad-tells chip.uid version (settings_set booted robot_id 7) true
      (settings_set-IsValid booted robot_id 7 booted-IsValid)

-- "Cat-A10F", the name of a robot without a number, and "Cat-07".
unassigned_name : adv_name chip.uid 0 ≡ 67 ∷ 97 ∷ 116 ∷ 45 ∷ 65 ∷ 49 ∷ 48 ∷ 70 ∷ []
unfolding adv_name
unassigned_name = refl

seventh_name : adv_name chip.uid 7 ≡ 67 ∷ 97 ∷ 116 ∷ 45 ∷ 48 ∷ 55 ∷ []
unfolding adv_name
seventh_name = refl
