-- ===== src/Control.antt =====
-- The 10 ms control cycle: src/baler-daemon/src/control.rs. `step` is cut into its phases, each a
-- function of the state record; the disk, the network and the bus master are one world beside it.
pub mod Commands
pub mod AnyBus
pub mod Invariant
pub mod Safety
pub mod History
pub mod Manual
pub mod Freeze
pub mod Latch
pub mod Pulses
pub mod Knives
pub mod Counting
pub mod NoSwitch
pub mod Maintenance
pub mod Spec
pub mod Refine
use claas_rollant.Prelude.{
  ℕ, ◌-◌, Bool, true, false, ◌&&◌, ◌||◌, not, List, [], ◌∷◌, Option, none, some, Result, ok, err,
  ltb, if◌then◌else◌, from_millis, from_secs, is_some, to_option, unwrap_or,
}
use claas_rollant.Ipc.{
  Mode, Command, manual_io, KnifePos, unknown, in_pos, out_pos, Ipv4Addr, StateSnapshot,
}
use claas_rollant.State
use claas_rollant.State.{
  BalerState, Action, Reject, fire_wrap, fire_knife, reset_session_action, adjust_session_action,
  reset_total_action, switch_to_ethernet, switch_to_ethercat,
}
use claas_rollant.InputConditioner as Conditioner
use claas_rollant.InputConditioner.{Debouncer}
use claas_rollant.Pulse
use claas_rollant.Pulse.{PulseEngine}
use claas_rollant.Counter.Files.{FileSystem, ReadError}
use claas_rollant.Counter.Store
use claas_rollant.Counter.Store.{CounterStore}
use claas_rollant.Ports.{Inputs, Outputs, NetworkController, BusController}

abbrev pub scan : ℕ
scan = from_millis 10

abbrev pub debounce : ℕ
debounce = 3

abbrev pub pulse : ℕ
pulse = from_secs 5

abbrev pub full_latch_cycles : ℕ
full_latch_cycles = 2000

abbrev pub manual_io_watchdog : ℕ
manual_io_watchdog = 30

pub record Control (fs : FileSystem) : Type 0 where
  pub counters : CounterStore fs
  pub state : BalerState
  pub wrap : PulseEngine
  pub knives_in : PulseEngine
  pub knives_out : PulseEngine
  pub full_db : Debouncer
  pub knife_db : Debouncer
  pub open_db : Debouncer
  pub last_open_level : Bool
  pub last_ip : Option Ipv4Addr
  pub full_latch_remaining : ℕ
  pub last_di1 : Bool
  pub last_di2 : Bool
  pub last_di3 : Bool
  pub manual_io_remaining : ℕ
  pub manual_wrap : Bool
  pub manual_knives_in : Bool
  pub manual_knives_out : Bool

module _ (fs : FileSystem) where
  abbrev pub initial : CounterStore fs → Control fs
  initial store = record {
    counters = store;
    state = State.new;
    wrap = Pulse.new pulse;
    knives_in = Pulse.new pulse;
    knives_out = Pulse.new pulse;
    full_db = Conditioner.new debounce false;
    knife_db = Conditioner.new debounce false;
    open_db = Conditioner.new debounce false;
    last_open_level = false;
    last_ip = none;
    full_latch_remaining = 0;
    last_di1 = false;
    last_di2 = false;
    last_di3 = false;
    manual_io_remaining = 0;
    manual_wrap = false;
    manual_knives_in = false;
    manual_knives_out = false;
  }

  abbrev built : Result (CounterStore fs) ReadError → Result (Control fs) ReadError
  built (ok store) = ok (initial store)
  built (err e) = err e

  unfoldable pub new : fs.FilePath → fs.Disk → Result (Control fs) ReadError
  new counter_path disk = built (Store.load fs counter_path disk)

  abbrev pub knife_active : Control fs → Bool
  knife_active c = c.knives_in.active || c.knives_out.active

  -- Bus health, raw inputs, debouncers, and the conditioned inputs.
  unfoldable pub sense : Inputs → Control fs → Control fs
  sense i c =
      let full_db = (Conditioner.update c.full_db i.bale_full).0 in
      let knife_db = (Conditioner.update c.knife_db i.knife_in).0 in
      let open_db = (Conditioner.update c.open_db i.bale_open).0 in
      let state = State.on_bus_health c.state i.healthy in
      record c {
        state = if i.healthy then State.on_inputs state full_db.level knife_db.level else state;
        last_di1 = i.bale_full;
        last_di2 = i.knife_in;
        last_di3 = i.bale_open;
        full_db = full_db;
        knife_db = knife_db;
        open_db = open_db;
      }

  -- The bale-full attention latch.
  unfoldable pub latch : Inputs → Control fs → Control fs
  latch i c =
      if i.healthy && c.full_db.level
      then record c { full_latch_remaining = full_latch_cycles }
      else if ltb 0 c.full_latch_remaining
      then record c { full_latch_remaining = c.full_latch_remaining - 1 }
      else c

  -- A knife command: the debounced DI2 picks the pulse, and none is fired while one is in flight.
  unfoldable pub fire_directional : Control fs → Control fs
  fire_directional c =
      if not (knife_active c)
      then if c.knife_db.level
        then record c { knives_in = (Pulse.trigger c.knives_in).0 }
        else record c { knives_out = (Pulse.trigger c.knives_out).0 }
      else c

  -- The manual-IO watchdog at the end of the commands.
  unfoldable pub arm : Bool → Control fs → Control fs
  arm got_manual c =
      if got_manual
      then record c { manual_io_remaining = manual_io_watchdog }
      else if ltb 0 c.manual_io_remaining
      then record c { manual_io_remaining = c.manual_io_remaining - 1 }
      else c

  abbrev pub manual_outputs : Inputs → Control fs → Outputs
  manual_outputs i c =
      let knives_in = i.healthy && c.manual_knives_in in
      record {
        wrap = i.healthy && c.manual_wrap;
        knives_in = knives_in;
        knives_out = (i.healthy && c.manual_knives_out) && not knives_in;
      }

  abbrev pub tick_pulses : Inputs → Control fs → Control fs
  tick_pulses i c = record c {
    wrap = (Pulse.tick c.wrap scan i.healthy).0;
    knives_in = (Pulse.tick c.knives_in scan i.healthy).0;
    knives_out = (Pulse.tick c.knives_out scan i.healthy).0;
  }

  abbrev pub pulse_outputs : Control fs → Outputs
  pulse_outputs c = record {
    wrap = c.wrap.active;
    knives_in = c.knives_in.active;
    knives_out = c.knives_out.active;
  }

  unfoldable pub drive : Inputs → Control fs → Control fs × Outputs
  drive i c =
      if ltb 0 c.manual_io_remaining
      then (c, manual_outputs i c)
      else (tick_pulses i c, pulse_outputs (tick_pulses i c))

  abbrev pub knife_pos : Option Bool → KnifePos
  knife_pos none = unknown
  knife_pos (some true) = in_pos
  knife_pos (some false) = out_pos

  abbrev pub no_ip : Ipv4Addr
  no_ip = record { a = 0; b = 0; c = 0; d = 0 }

  unfoldable pub snapshot : Control fs → StateSnapshot
  snapshot c = record {
    mode = c.state.mode;
    bale_full = c.state.bale_full;
    knife = knife_pos c.state.knife_in;
    wrap_armed = State.wrap_armed c.state;
    full_latched = ltb 0 c.full_latch_remaining;
    wrap_active = c.wrap.active;
    knife_active = knife_active c;
    session = c.counters.counters.session;
    total = c.counters.counters.total;
    di1 = c.last_di1;
    di2 = c.last_di2;
    di3 = c.last_di3;
    ip = unwrap_or c.last_ip no_ip;
    ip_valid = is_some c.last_ip;
  }

  unfoldable pub idle_snapshot : Control fs → Mode → StateSnapshot
  idle_snapshot c mode = record {
    mode = mode;
    bale_full = false;
    knife = unknown;
    wrap_armed = false;
    full_latched = false;
    wrap_active = false;
    knife_active = false;
    session = c.counters.counters.session;
    total = c.counters.counters.total;
    di1 = false;
    di2 = false;
    di3 = false;
    ip = no_ip;
    ip_valid = false;
  }

-- Everything outside the control state that a cycle can change.
pub record World (fs : FileSystem) (net : NetworkController) (bus : BusController) : Type 0 where
  pub disk : fs.Disk
  pub network : net.Net
  pub master : bus.Bus

module _ (fs : FileSystem) (net : NetworkController) (bus : BusController) where
  pub record Cycle : Type 0 where
    pub world : World fs net bus
    pub control : Control fs
    pub got_manual : Bool

  -- A counter method: its error is logged and dropped.
  abbrev pub count :
      (CounterStore fs → fs.Disk → CounterStore fs × fs.Disk × Result (Unit {0}) fs.IoError)
      → World fs net bus
      → Control fs
      → World fs net bus × Control fs
  count method w c =
      let (counters, disk, r) = method c.counters w.disk in
      (record w { disk = disk }, record c { counters = counters })

  -- The bale count, on the rising edge of the debounced DI3.
  unfoldable pub count_bale : Inputs → World fs net bus → Control fs → World fs net bus × Control fs
  count_bale i w c =
      let level = c.open_db.level in
      let edge = i.healthy && (level && not c.last_open_level) in
      let (w', c') = count (Store.increment_bale fs) w c in
      if edge
      then (w', record c' { last_open_level = level })
      else (w, record c { last_open_level = level })

  -- The arms of the `match` on the outcome of a command.
  unfoldable pub perform :
      Result Action Reject → World fs net bus → Control fs → World fs net bus × Control fs
  perform (ok fire_wrap) w c =
      (w, record c { wrap = (Pulse.trigger c.wrap).0; full_latch_remaining = 0 })
  perform (ok fire_knife) w c = (w, fire_directional fs c)
  perform (ok reset_session_action) w c = count (Store.reset_session fs) w c
  perform (ok (adjust_session_action delta)) w c = count (Store.adjust_session fs delta) w c
  perform (ok reset_total_action) w c = count (Store.reset_total fs) w c
  perform (ok switch_to_ethernet) w c =
      let master = bus.suspend w.master in
      let (network, r) = net.enter_ethernet w.network in
      (record w { master = master; network = network }, record c { last_ip = to_option r })
  perform (ok switch_to_ethercat) w c =
      let (network, r) = net.enter_ethercat w.network in
      (record w { network = network; master = bus.restart w.master }, record c { last_ip = none })
  perform (err reject) w c = (w, c)

  -- A command for the state machine, outside manual-IO mode.
  unfoldable pub operate : Command → Cycle → Cycle
  operate cmd y =
      let c = y.control in
      let any_active = c.wrap.active || knife_active fs c in
      let (state, outcome) = State.handle c.state cmd any_active in
      let (w', c') = perform outcome y.world (record c { state = state }) in
      record y { world = w'; control = c' }

  -- The body of the loop over the commands.
  unfoldable pub on_command : Command → Cycle → Cycle
  on_command (manual_io w i o) y = record y {
    got_manual = true;
    control = record (y.control) { manual_wrap = w; manual_knives_in = i; manual_knives_out = o };
  }
  on_command cmd y = if ltb 0 y.control.manual_io_remaining then y else operate cmd y

  unfoldable pub on_commands : List Command → Cycle → Cycle
  on_commands [] y = y
  on_commands (cmd ∷ cmds) y = on_commands cmds (on_command cmd y)

  -- The cycle up to its commands.
  unfoldable pub begin : World fs net bus → Control fs → Inputs → Cycle
  begin w c inputs =
      let (w', c') = count_bale inputs w (sense fs inputs c) in
      record { world = w'; control = latch fs inputs c'; got_manual = false }

  unfoldable pub step :
      World fs net bus
      → Control fs
      → Inputs
      → List Command
      → World fs net bus × Control fs × Outputs × StateSnapshot
  step w c inputs commands =
      let y = on_commands commands (begin w c inputs) in
      let (c', outputs) = drive fs inputs (arm fs y.got_manual y.control) in
      (y.world, c', outputs, snapshot fs c')
