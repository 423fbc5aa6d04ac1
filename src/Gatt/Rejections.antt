-- ===== src/Gatt/Rejections.antt =====
-- What a rejected write of src/ble/ble_interface.c leaves.
use moamoa_caterpillar_firmw.Base.{ℕ, ◌≡◌, ◌≢◌, refl, List, arith, length, get_or, get_le16}
use moamoa_caterpillar_firmw.Errno.{Status, ok, err}
use moamoa_caterpillar_firmw.Drivers.Pwm.{Pwm}
use moamoa_caterpillar_firmw.Device.Commands.{Command, set_volt_mv, log_op, device_cmd_submit}
use moamoa_caterpillar_firmw.Gatt.Board.{Board, GattEnv, AttError, unlikely, AttResult, rejected}
use moamoa_caterpillar_firmw.Gatt.Writes.{
  freq_set, on_freq_write, submitted, on_volt_write, one_bit, on_rail_write, on_drv_write,
  on_led_write, on_tput_write, on_time_write, op_of_byte, on_imucfg_write, on_logctl_write,
  on_dump_write, on_robotid_write, Written, freq, volt, rail, drv, tput, time, led, imucfg, logctl,
  dump, robotid, on_write,
}

-- A rejection leaves the board as it was, unless it is one of those left out.
abbrev Clean : Board → (AttError → Type 0) → AttResult × Board → Type 0
Clean b Left_out r = (e : AttError) → r.0 ≡ rejected e → Left_out e → r.1 ≡ b

abbrev Any : AttError → Type 0
Any e = Unit {0}

abbrev NotUnlikely : AttError → Type 0
NotUnlikely e = e ≢ unlikely

freq_set-Clean :
    (hz : ℕ) (st : Status) (p : Pwm) (b : Board) → Clean b NotUnlikely (freq_set hz st p b)
unfolding freq_set
freq_set-Clean hz ok p b e h k = absurd (cc)
freq_set-Clean hz (err x) p b e h k = absurd (k (cc))

submitted-Clean :
    (len : ℕ) (r : Status × List Command) (b : Board) → Clean b Any (submitted len r b)
unfolding submitted
submitted-Clean len (ok, queue) b e h k = absurd (cc)
submitted-Clean len (err x, queue) b e h k = refl

one_bit-Clean : (buf : List ℕ) (offset : ℕ) (b b' : Board) → Clean b Any (one_bit buf offset b b')
unfolding one_bit
one_bit-Clean buf offset b b' e h k = ground arith

on_freq_write-Clean :
    (env : GattEnv) (buf : List ℕ) (offset : ℕ) (b : Board)
    → Clean b NotUnlikely (on_freq_write env buf offset b)
unfolding on_freq_write
on_freq_write-Clean env buf offset b e h k = ground (arith, freq_set-Clean (get_le16 buf 0) _ _ b e)

on_volt_write-Clean :
    (buf : List ℕ) (offset : ℕ) (b : Board) → Clean b Any (on_volt_write buf offset b)
unfolding on_volt_write
on_volt_write-Clean buf offset b e h k =
    ground (arith, submitted-Clean 2 (device_cmd_submit (set_volt_mv (get_le16 buf 0)) b.queue) b e)

on_time_write-Clean :
    (env : GattEnv) (buf : List ℕ) (offset : ℕ) (b : Board)
    → Clean b Any (on_time_write env buf offset b)
unfolding on_time_write
on_time_write-Clean env buf offset b e h k = ground (arith)

on_imucfg_write-Clean :
    (env : GattEnv) (buf : List ℕ) (offset : ℕ) (b : Board)
    → Clean b Any (on_imucfg_write env buf offset b)
unfolding on_imucfg_write
on_imucfg_write-Clean env buf offset b e h k = ground (arith)

on_logctl_write-Clean :
    (buf : List ℕ) (offset : ℕ) (b : Board) → Clean b Any (on_logctl_write buf offset b)
unfolding on_logctl_write
on_logctl_write-Clean buf offset b e h k = ground (
  arith,
  submitted-Clean (length buf) (device_cmd_submit (log_op (op_of_byte (get_or buf 0 0))) b.queue) b
      e,
)

on_dump_write-Clean :
    (buf : List ℕ) (offset : ℕ) (b : Board) → Clean b Any (on_dump_write buf offset b)
unfolding on_dump_write
on_dump_write-Clean buf offset b e h k = ground (arith)

on_robotid_write-Clean :
    (buf : List ℕ) (offset : ℕ) (b : Board) → Clean b Any (on_robotid_write buf offset b)
unfolding on_robotid_write
on_robotid_write-Clean buf offset b e h k = ground (arith)

-- What a rejection of a write may leave out.
abbrev Exempt : Written → AttError → Type 0
Exempt freq = NotUnlikely
Exempt volt = Any
Exempt rail = Any
Exempt drv = Any
Exempt tput = Any
Exempt time = Any
Exempt led = Any
Exempt imucfg = Any
Exempt logctl = Any
Exempt dump = Any
Exempt robotid = Any

on_write-Clean :
    (env : GattEnv) (c : Written) (buf : List ℕ) (offset : ℕ) (b : Board)
    → Clean b (Exempt c) (on_write env c buf offset b)
unfolding on_write on_rail_write on_drv_write on_led_write on_tput_write
on_write-Clean env freq buf offset b = on_freq_write-Clean env buf offset b
on_write-Clean env volt buf offset b = on_volt_write-Clean buf offset b
on_write-Clean env rail buf offset b = one_bit-Clean buf offset b _
on_write-Clean env drv buf offset b = one_bit-Clean buf offset b _
on_write-Clean env tput buf offset b = λ e h k. absurd (cc)
on_write-Clean env time buf offset b = on_time_write-Clean env buf offset b
on_write-Clean env led buf offset b = one_bit-Clean buf offset b _
on_write-Clean env imucfg buf offset b = on_imucfg_write-Clean env buf offset b
on_write-Clean env logctl buf offset b = on_logctl_write-Clean buf offset b
on_write-Clean env dump buf offset b = on_dump_write-Clean buf offset b
on_write-Clean env robotid buf offset b = on_robotid_write-Clean buf offset b

exempt : (c : Written) (e : AttError) → (c ≡ freq → e ≢ unlikely) → Exempt c e
exempt freq e h = h refl
exempt volt e h = tt
exempt rail e h = tt
exempt drv e h = tt
exempt tput e h = tt
exempt time e h = tt
exempt led e h = tt
exempt imucfg e h = tt
exempt logctl e h = tt
exempt dump e h = tt
exempt robotid e h = tt

-- A write that is rejected changes nothing: no state, no setting, no queue, on any of the eleven
-- characteristics; but for a frequency that the hardware did not take, which is rejected as
-- unlikely.
pub on_write-rejected :
    (env : GattEnv) (c : Written) (buf : List ℕ) (offset : ℕ) (b : Board) (e : AttError)
    → (on_write env c buf offset b).0 ≡ rejected e
    → (c ≡ freq → e ≢ unlikely)
    → (on_write env c buf offset b).1 ≡ b
on_write-rejected env c buf offset b e same h =
    on_write-Clean env c buf offset b e same (exempt c e h)
