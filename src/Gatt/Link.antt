-- ===== src/Gatt/Link.antt =====
-- src/ble/ble_interface.c: the connection's life and the advertising that leads to it. The Bluetooth
-- stack is Zephyr's: when it calls back is chosen by a step relation, and what its calls return is a
-- parameter of the step.
use moamoa_caterpillar_firmw.Base.{
  ℕ, ◌≡◌, Bool, true, false, List, [], ◌∷◌, ◌++◌, Option, none, some, if◌then◌else◌, ◌==◌,
}
use moamoa_caterpillar_firmw.Errno.{Status, ok, err, enodev}
use moamoa_caterpillar_firmw.Flash.{FlashDevice}
use moamoa_caterpillar_firmw.Device.Session.{Device, session_on_disconnect}
use moamoa_caterpillar_firmw.Gatt.Advert.{Version, Advert, build_ad}
mod Reachable
mod Tests

-- `struct bt_le_conn_param`; intervals are in 1.25 ms, the timeout in 10 ms.
pub record ConnParam : Type 0 where
  pub interval_min : ℕ
  pub interval_max : ℕ
  pub latency : ℕ
  pub timeout : ℕ

-- The statics `cur_conn`, and `adv_name` and `adv_mfg` as `ad`; whether `adv_restart_work` is
-- scheduled; the calls of `bt_conn_le_param_update` and `bt_conn_le_phy_update` so far. Then the
-- stack's own state: the connection that exists, and what it advertises.
pub record Link : Type 0 where
  pub cur_conn : Option ℕ
  pub ad : Advert
  pub restart_scheduled : Bool
  pub param_updates : List (ℕ × ConnParam)
  pub phy_updates : List ℕ
  pub connection : Option ℕ
  pub on_air : Option Advert

-- The chip and the build: the device's id and the firmware's version.
pub record Chip : Type 0 where
  pub uid : List ℕ
  pub version : Version

unfoldable pub ble_conn_request_params : Bool → Link → Link
ble_conn_request_params slow l = elim l.cur_conn [
  | none ↦ l
  | some conn ↦
      let param : ConnParam =
        if slow
        then record { interval_min = 32; interval_max = 48; latency = 0; timeout = 400 }
        else record { interval_min = 6; interval_max = 12; latency = 0; timeout = 400 } in
      record l { param_updates = l.param_updates ++ (conn, param) ∷ [] }
]

-- `bt_le_adv_start`, for its result.
abbrev pub bt_le_adv_start : Status → Link → Link
bt_le_adv_start ok l = record l { on_air = some l.ad }
bt_le_adv_start (err e) l = l

-- `restart_advertise`, for what `bt_le_adv_start` returns.
unfoldable pub restart_advertise : Chip → Status → Device → Link → Link
restart_advertise chip started d l = bt_le_adv_start started (record l {
  ad = build_ad chip.uid chip.version d.settings d.log.active;
  restart_scheduled = false;
})

-- `connected`; an error of 0 is none.
unfoldable pub connected : ℕ → ℕ → Link → Link
unfolding ble_conn_request_params
connected conn error l =
    if error == 0
    then (let l1 = ble_conn_request_params false (record l { cur_conn = some conn }) in
        record l1 { phy_updates = l1.phy_updates ++ conn ∷ [] })
    else record l { restart_scheduled = true }

-- `disconnected`, with what `session_on_disconnect` finds.
unfoldable pub disconnected : FlashDevice → ℕ → ℕ → Device → Link → Device × Link
disconnected fl rounds now d l =
    (session_on_disconnect fl rounds now d, record l { cur_conn = none; restart_scheduled = true })

-- `ble_interface_init`, for what `bt_enable` and `bt_le_adv_start` return.
unfoldable pub ble_interface_init : Chip → Status → Status → Device → Link → Status × Link
ble_interface_init chip (err e) started d l = (err e, l)
ble_interface_init chip ok started d l = (
  started,
  bt_le_adv_start started
      (record l { ad = build_ad chip.uid chip.version d.settings d.log.active }),
)

pub record Peer : Type 0 where
  pub device : Device
  pub link : Link

-- `may` says what `bt_le_adv_start` may return.
module _ (chip : Chip) (fl : FlashDevice) (may : Status → Type 0) where
  -- What can happen. A connectable advertisement ends when a central takes it, whether the connection
  -- comes about or not; there is at most one connection.
  pub data Step (s : Peer) : Peer → Type 0 where
    establish :
        (conn : ℕ) (a : Advert)
        → s.link.on_air ≡ some a
        → Step s (record s {
          link = connected conn 0 (record s.link { on_air = none; connection = some conn });
        })
    fail :
        (conn error : ℕ) (a : Advert)
        → s.link.on_air ≡ some a
        → (error == 0) ≡ false
        → Step s (record s { link = connected conn error (record s.link { on_air = none }) })
    lose :
        (conn rounds now : ℕ)
        → s.link.connection ≡ some conn
        → Step s (
            let r = disconnected fl rounds now s.device (record s.link { connection = none }) in
            record { device = r.0; link = r.1 })
    restart :
        (started : Status)
        → may started
        → s.link.restart_scheduled ≡ true
        → Step s (record s { link = restart_advertise chip started s.device s.link })
    request : (slow : Bool) → Step s (record s { link = ble_conn_request_params slow s.link })
    elsewhere : (d : Device) → Step s (record s { device = d })

  pub data Reach (s : Peer) : Peer → Type 0 where
    here : Reach s s
    next : {t u : Peer} → Reach s t → Step t u → Reach s u
