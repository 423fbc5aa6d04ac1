-- ===== src/Lib.antt =====
-- Verification of the firmware of the caterpillar robot.
--
-- The firmware runs on two cores. The coprocessor (flpr/src) samples the IMU and publishes records in
-- a ring in shared memory (common/imu_shared.h). The application core (src) drains the ring
-- (src/imu/imu_pump.c) into the session log in flash (src/imu/imu_log.c) and into the live stream
-- (src/ble/ble_transport.c), takes commands over a GATT service (src/ble/ble_interface.c), executes
-- the slow ones on a thread of their own (src/app/device_cmd.c) under the policy of
-- src/app/session.c, keeps settings in flash (src/settings), and drives the motor and an LED
-- (src/drivers).
--
-- The modules and what they model; functions keep the names that they have in the code, and a
-- function's statics are the fields of a record that its model takes and returns:
-- - Base, Errno: shared helpers, machine words, byte layouts, and the int results of calls.
-- - Flash: the memory, and the flash driver's operations as a record. The driver is Zephyr's: Works
--   states its documented behaviour, and Flash.Ideal has it.
-- - Settings: src/settings/settings_store.c and settings_gen.h. Registry is the table, Store the
--   functions, Ranges, Records and Persist the proofs. crc32_ieee is a parameter.
-- - Imu: Shared is common/imu_shared.h; Sensor is flpr/src/driver_asm330lhh.c, with the SPI transfers
--   as parameters; Drdy is the sensor's data-ready line, its interrupt and the sampler that waits for it
--   (Lively and Stalls are the proofs); Sampler is flpr/src/main.c; Launch is src/imu/flpr_launch.c;
--   Pump is src/imu/imu_pump.c; Spsc interleaves the two cores' accesses to the ring by a step relation.
-- - Log: src/imu/imu_log.c. Entry has the layout of the directory, State the statics and the helpers,
--   Writer the staging ring and the writer thread, Api start, stop, erase and boot, Sessions and
--   Reading the list and the read-back. Contents, Staging, Frame, Drain, ReadBack, Recovery and Order
--   are the proofs: the ring of flash is compared with a flat history of all records ever written.
--   Events and Pipeline put the pump's appends and the writer's batches of a session together, in any
--   order, and Shifted is about sessions so late that their byte number does not fit in 32 bits.
-- - Recorder: the ring, the pump's calls of the log and the sink, and the log's writer as one step
--   relation; Runs and Recorded are its proofs.
-- - Stream: decimation, adaptation, FIFO and packets of src/ble/ble_transport.c; Fifo, Rate, Sender
--   and Resubscribe are the proofs.
-- - Dump: the dump thread, the retry loops and the messages of the same file; Chunks, Sessions and
--   History are the proofs. Credits is the flow control of the TX and the dump thread as a step
--   relation, with Paced and Overfull as proofs. bt_gatt_notify_cb, the other semaphores and snprintf
--   are parameters.
-- - Device: src/app/session.c (Session) and src/app/device_cmd.c (Commands), over the log, the stream,
--   the settings and the shared block together; Arbiter, Detached and Clock are the proofs. Handshake is
--   the reconfiguration of the sampler, access by access on both cores; Invariant, Applied, Overlap and
--   Race are its proofs.
-- - Gatt: src/ble/ble_interface.c. Board, Writes and Reads are the handlers, with Rejections and Sampling
--   as proofs; Advert is the advertising data; Link is the connection's life and the restart of the
--   advertising, with Reachable as its proof. Bluetooth stack calls are parameters.
-- - Drivers: Pwm, Digipot, Led and Switches are driver_pwm.c, max5419.c, driver_led.c, and the rail,
--   the sleep pin and the voltage sense; Waveform, Ramp and Heartbeat are the proofs. Voltage is the
--   arithmetic of max5419.c over a record of floating-point operations, with Safe as its proof.
-- - App: src/app/app.c. Boot is app_init over all parts together, with Wiper and Idle as proofs; Monitor is
--   app_run, with Losses and Warnings as proofs.
-- A module named Tests holds runs on concrete states.
--
-- Integers are natural numbers with the wrap-around of their width written out; an int16_t of a
-- sample is its bit pattern. Loops that wait for another thread take what the environment does as a
-- parameter: the rounds that the writer gets done while a stop waits, the result of each transfer by
-- its number. Fuel: the copying loop of a read and the dump's loop take as many rounds as bytes, the
-- ramp as many as taps lie between, and the theorems on their results show that this is enough. The
-- theorems on the log suppose that the 32-bit counters have not wrapped; Log.Drain.DrainOk and
-- Log.Staging.StageOk say by how much.
--
-- Floating point is a parameter: Drivers.Voltage.Float has the operations that the code uses, IsFloat
-- the laws of IEEE 754 that the proof relies on, and Drivers.Voltage.Fixed numbers that meet them.
--
-- Not modelled: the framing of SPI transfers and the set-up of pins, logging to the console, the
-- Bluetooth stack's own work, and the host's scripts.
pub mod App
pub mod Base
pub mod Device
pub mod Drivers
pub mod Dump
pub mod Errno
pub mod Flash
pub mod Gatt
pub mod Imu
pub mod Log
pub mod Recorder
pub mod Settings
pub mod Stream
