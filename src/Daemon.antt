-- ===== src/Daemon.antt =====
-- The run loops of the daemon: src/baler-daemon/src/main.rs. The item of the executor is a function of
-- the daemon's state, the time since the start, and the commands drained from the link.
pub mod Cycles
pub mod Process
pub mod Fed
pub mod Paths
pub mod Backstop
pub mod Startup
use claas_rollant.Prelude.{
  ℕ, zero, suc, ◌+◌, Bool, true, false, ◌&&◌, ◌||◌, not, List, [], ◌∷◌, Option, none, some, Result,
  ok, err, leb, if◌then◌else◌,
}
use claas_rollant.Ipc.{Mode, Command, StateSnapshot, fault}
use claas_rollant.State
use claas_rollant.Counter.Files.{FileSystem}
use claas_rollant.Ports.{Inputs, Outputs, NetworkController, noop_bus, sim_poll, sim_network}
use claas_rollant.Control.{Control, World, step, idle_snapshot}
use claas_rollant.EthercatIo.{Channels, WagoBus, controller, poll, write, take_restart_request}

-- 12 s, in milliseconds.
abbrev pub bringup_deadline : ℕ
bringup_deadline = 12_000

-- The watchdog and the link to the panel: what the daemon does to each is an operation on its state.
pub record Edges : Type 1 where
  pub Watchdog : Type 0
  pub pet : Watchdog → Watchdog
  pub Link : Type 0
  pub publish : StateSnapshot → Link → Link

module _ (ch : Channels) where
  -- What has come in when the item is called: the time since the start, the input channel, the shared
  -- health, and the commands on the link.
  pub record Round : Type 0 where
    pub elapsed : ℕ
    pub reader : ch.Reader
    pub health : ℕ
    pub commands : List Command

-- How the process ends: an error of the executor, or the request for a fresh process.
pub data ProcessError (E : Type 0) : Type 0 where
  executor_failed : E → ProcessError E
  restart_wanted : ProcessError E

module _ (fs : FileSystem) (net : NetworkController) (ch : Channels) (edges : Edges) where
  open edges use {Watchdog, pet, Link, publish}

  pub record Daemon : Type 0 where
    pub control : Control fs
    pub world : World fs net (controller ch)
    pub watchdog : Watchdog
    pub link : Link
    pub ever_up : Bool
    pub maintenance : Bool
    pub exit_flag : Bool

  -- `exit_flag.store(true)` and `stop_executor()`; the second part is whether the item stopped it.
  abbrev pub stop : Daemon → Daemon × Bool
  stop d = (record d { exit_flag = true }, true)

  -- The bring-up deadline has passed with the bus never up.
  abbrev pub lapsed : Daemon → Inputs → ℕ → Bool
  lapsed d i elapsed =
      not i.healthy && (not d.ever_up && (not d.maintenance && leb bringup_deadline elapsed))

  -- The end of the item, after a cycle without a restart request.
  unfoldable pub finish : Daemon → Outputs → StateSnapshot → Daemon
  finish d out snap = record d {
    world = record (d.world) { master = write ch d.world.master out };
    watchdog = pet d.watchdog;
    link = publish snap d.link;
  }

  -- The item after the poll and the deadline.
  unfoldable pub work : Daemon → Inputs → List Command → Daemon × Bool
  work d i commands =
      let (w, c, out, snap) = step fs net (controller ch) d.world d.control i commands in
      let (master, requested) = take_restart_request ch w.master in
      let d' : Daemon = record d {
        control = c;
        world = record w { master = master };
        maintenance = d.maintenance || State.is_ethernet snap.mode;
      } in
      if requested then stop d' else (finish d' out snap, false)

  abbrev pub polled :
      Daemon → ℕ → List Command → Option (WagoBus ch × Inputs) → Option (Daemon × Bool)
  polled d elapsed commands none = none
  polled d elapsed commands (some (b, i)) =
      let d' : Daemon = record d {
        world = record (d.world) { master = b };
        ever_up = d.ever_up || i.healthy;
      } in
      some (if lapsed d i elapsed then stop d' else work d' i commands)

  -- One run of the control item; `none` means that the fuel of the poll ran out.
  unfoldable pub item : ℕ → Daemon → ℕ → List Command → Option (Daemon × Bool)
  item fuel d elapsed commands = polled d elapsed commands (poll ch fuel d.world.master)

  -- The end of `run_ethercat`, from what `exec.run()` returns and the exit flag.
  unfoldable pub exit_status :
      {E : Type 0} → Result (Unit {0}) E → Daemon → Result (Unit {0}) (ProcessError E)
  exit_status (err e) d = err (executor_failed e)
  exit_status (ok u) d = if d.exit_flag then err restart_wanted else ok tt

-- The reading of one look at the link files: `operstate` is "up", `carrier` is "1".
pub record LinkReading : Type 0 where
  pub up : Bool
  pub has_carrier : Bool

-- `wait_for_carrier`, over the readings to come: until a usable link is read, each round pets the
-- watchdog and publishes the fault snapshot. `none` means that no reading was usable.
module _ (fs : FileSystem) (edges : Edges) (c : Control fs) where
  unfoldable pub wait_for_carrier :
      List LinkReading → edges.Watchdog × edges.Link → Option (edges.Watchdog × edges.Link)
  wait_for_carrier [] s = none
  wait_for_carrier (r ∷ rs) (wd, link) =
      let rest =
        wait_for_carrier rs (edges.pet wd, edges.publish (idle_snapshot fs c fault) link) in
      if r.up || r.has_carrier then some (wd, link) else rest

-- One round of the simulated loop `run`: poll, step, pet, publish.
module _ (fs : FileSystem) (edges : Edges) where
  pub record SimDaemon : Type 0 where
    pub control : Control fs
    pub world : World fs sim_network noop_bus
    pub watchdog : edges.Watchdog
    pub link : edges.Link

  unfoldable pub sim_round : SimDaemon → ℕ → List Command → SimDaemon
  sim_round d elapsed_secs commands =
      let (w, c, out, snap) =
        step fs sim_network noop_bus d.world d.control (sim_poll elapsed_secs) commands in
      record {
        control = c;
        world = w;
        watchdog = edges.pet d.watchdog;
        link = edges.publish snap d.link;
      }
