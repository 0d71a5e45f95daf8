-- ===== src/Lib.antt =====
-- The control software of a round baler: a daemon that runs a 10 ms control cycle over an EtherCAT
-- coupler, and a panel with softkeys. The crate baler-core holds the logic that both share, baler-daemon
-- the control cycle and its ports, baler-ui the panel.
--
-- The parts and the files that model them:
-- - State: the machine's mode and the commands it accepts (`BalerState`, src/baler-core/src/state.rs).
--   State/Modes has the mode diagram, State/Gating the accepted commands.
-- - InputConditioner: the debouncer (src/baler-core/src/input_conditioner.rs). Pulse: the timed outputs
--   (src/baler-core/src/pulse.rs).
-- - Counter: the bale counters (src/baler-core/src/counter.rs). Counter/Format is the text of the file,
--   Counter/Store the store, Counter/Files the file system as an interface, Counter/Durability what is on
--   the disk after a loss of power, Counter/PowerCycles the life of a device over many of them, against the
--   rules of Counter/Shadow.
-- - Bringup: the retries that open a transport (src/baler-core/src/bringup.rs).
-- - Ipc: the commands and the snapshot between daemon and panel (src/baler-core/src/ipc.rs).
-- - Ports: the traits of the daemon (src/baler-daemon/src/ports.rs).
-- - Control: `Control::step` (src/baler-daemon/src/control.rs), cut into its phases: `sense`,
--   `count_bale`, `latch`, `on_commands`, `arm` and `drive`. A cycle takes the state, the inputs, the
--   commands and the world, which is the disk, the network and the bus master, and returns them with the
--   outputs and the snapshot. Control/History runs whole histories of cycles, listed newest first.
--   Control/Spec is the specification: a machine that counts in cycles, knows the inputs only while
--   operational, and has the two knife outputs as one. Control/Refine sees the control state as that
--   machine, phase by phase (Refine/Phases, Refine/Views) and history by history (Refine/Runs, with the
--   debouncers in Refine/Fed). Control/AnyBus is about running it beside any bus master.
-- - EthercatIo: the process image and the bus handle `WagoBus` (src/baler-daemon/src/ethercat_io.rs),
--   which is both the source of the inputs and the bus master of a cycle; EthercatIo/Health the health
--   pump, EthercatIo/Setup the registration with its errors, EthercatIo/Codec the byte on the wire.
-- - Daemon: the item of the executor, the wait for a carrier and the simulated loop
--   (src/baler-daemon/src/main.rs), with Daemon/Cycles on one call of the item, Daemon/Process on the calls
--   over the life of a process, Daemon/Backstop on a bus that never comes up, Daemon/Fed on the watchdog and
--   Daemon/Paths on the two run paths side by side. Daemon/Startup is the whole process of the device build:
--   the watchdog, the counters, the link, the wait for the carrier, the executor, the bus and the loop, as a
--   chain of phases of which each may end the process; Startup/Armed is about the
--   hardware timer at its end, Startup/Ends about the fuel.
-- - Watchdog: the petter of the hardware watchdog (src/baler-daemon/src/watchdog.rs). Transport: the link to
--   the panel (src/baler-daemon/src/transport.rs), Transport/Links the opening of its two ends,
--   Transport/Codec its codec (src/baler-core/src/codec.rs). Network: the switch of the interface by `ip`
--   (src/baler-daemon/src/network_mode.rs), Network/Contains its test for a missing route, Network/Scripts
--   the commands that a switch runs.
-- - Ui: the panel (src/baler-ui/src/main.rs and i18n.rs): Ui/Nav the screens, Ui/Panel the keys and one
--   frame, Ui/Gate what they let through, Ui/Language the language and its file, Ui/Labels the words of both
--   languages, Ui/View what a frame puts on the window, Ui/Led the beacon's colours, Ui/Loop the rounds of the
--   main loop on lists of events, with the redraw test, the beacon's memory and its writes, Ui/Pixel and Ui/FbPlatform the
--   frame buffer's pixels and the platform (src/baler-ui/src/platform.rs), Ui/Local the standalone backend.
--   Ui/Device is the main loop over any backend, which handles each key as it is read and draws:
--   Device/Launch the start of the panel, Device/Keys the keys of a round, Device/Backends the link and the
--   standalone panel as backends, Device/Rounds, Device/Safe and Device/Ends what the loop does.
-- - Rig: panel, link and daemon together: frames of the panel and cycles of the daemon in any order, with
--   late snapshots and lost commands. Rig/Locked is about the PIN, Rig/Deadman about the IO test page. Rig/Shown
--   adds the way back, the snapshots on the link, with a step relation of the two processes and the sites that
--   come about: Shown/Fresh and Shown/Loss say what the operator sees, Shown/Wrap follows a key to its output.
-- - Prelude: what the modules share. Tests: the concrete parts and the examples of the theorems.
--
-- Numbers are natural numbers; the saturation of u8, u64 and Duration and the cut of `as u8` are written
-- out. A duration is its nanoseconds. A time read from a clock is an argument.
--
-- Loops on fuel: `retry_open` has one more than its number of attempts, which is enough for every
-- behaviour of its hooks. The drains of the channels, `drain`, `drain_all` and `drain_latest`, have the
-- fuel as an argument and end with more of it than values pending; so does `poll_keys`, on the key events.
-- The executor's calls of the item and the rounds of the panel are lists of what they meet: any length, so
-- any time at which the process is looked at. All other loops are over lists. A call that may lack fuel gives
-- an option, and one that may fail a result beside the state it leaves (Prelude/Phases).
--
-- Third-party code is a parameter: std::fs with its documented behaviour as laws (Counter/Files), the
-- processes that run `ip` (Network), the network and the bus master of a cycle (Ports), the channels of the
-- EtherCAT connector and its construction (EthercatIo), iceoryx2 and taktora (Transport), serde_json and
-- postcard (the codecs), the driver of the hardware watchdog with its documented behaviour (Watchdog), the
-- watchdog and the link as the daemon uses them (Daemon), the executor and all of these together as the
-- platform of the process (Daemon/Startup), cr1140-hal and Slint (Ui/Device). The disk laws say nothing of
-- how long data stays in a cache: a step of `persist` is on the disk once it returns.
--
-- Not modelled: how Slint draws the window's values, its file, logging, sleeps, the numbers that only
-- configure third-party code, the choice of parts by build features other than those of the device build and
-- the simulation, the release of third-party handles at the end of a process, building and deployment.
pub mod Prelude
pub mod Ipc
pub mod State
pub mod InputConditioner
pub mod Pulse
pub mod Bringup
pub mod Counter
pub mod Ports
pub mod Control
pub mod EthercatIo
pub mod Daemon
pub mod Transport
pub mod Ui
pub mod Network
pub mod Rig
pub mod Watchdog
mod Tests
