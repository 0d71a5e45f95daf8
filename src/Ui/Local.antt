-- ===== src/Ui/Local.antt =====
-- The standalone panel: `LocalBackend` of src/baler-ui/src/main.rs. The clock's readings are arguments:
-- the time since the last frame, and the seconds since the start.
use claas_rollant.Prelude.{
  refl, ℕ, ◌%◌, ◌≡◌, Bool, true, false, ◌&&◌, ◌||◌, not, Option, none, some, Result, ok, err,
  if◌then◌else◌, leb, from_secs, is_some, unwrap_or, arith,
}
use claas_rollant.Ipc.{Command, StateSnapshot, Ipv4Addr}
use claas_rollant.State
use claas_rollant.State.{
  BalerState, Action, Reject, fire_wrap, fire_knife, reset_session_action, adjust_session_action,
  reset_total_action, switch_to_ethernet, switch_to_ethercat,
}
use claas_rollant.Pulse
use claas_rollant.Pulse.{PulseEngine, PulseEvent, no_event, completed, aborted}
use claas_rollant.Counter.Files.{FileSystem}
use claas_rollant.Counter.Store
use claas_rollant.Counter.Store.{CounterStore}
use claas_rollant.Ports.{demo_ip}
use claas_rollant.Control.{knife_pos, no_ip}

pub record LocalBackend (fs : FileSystem) : Type 0 where
  pub state : BalerState
  pub wrap : PulseEngine
  pub knives_in : PulseEngine
  pub knives_out : PulseEngine
  pub counters : CounterStore fs
  pub sim_knife_in : Bool
  pub sim_bale_open : Bool
  pub last_ip : Option Ipv4Addr

module _ (fs : FileSystem) where
  open fs use {Disk}

  -- `LocalBackend::new`, on the counters that were loaded.
  unfoldable pub new : CounterStore fs → LocalBackend fs
  new counters = record {
    state = State.on_bus_health State.new true;
    wrap = Pulse.new (from_secs 5);
    knives_in = Pulse.new (from_secs 5);
    knives_out = Pulse.new (from_secs 5);
    counters = counters;
    sim_knife_in = false;
    sim_bale_open = false;
    last_ip = none;
  }

  abbrev pub knife_active : LocalBackend fs → Bool
  knife_active b = b.knives_in.active || b.knives_out.active

  unfoldable pub snapshot : LocalBackend fs → StateSnapshot
  snapshot b = record {
    mode = b.state.mode;
    bale_full = b.state.bale_full;
    knife = knife_pos fs b.state.knife_in;
    wrap_armed = State.wrap_armed b.state;
    full_latched = b.state.bale_full;
    wrap_active = b.wrap.active;
    knife_active = knife_active b;
    session = b.counters.counters.session;
    total = b.counters.counters.total;
    di1 = b.state.bale_full;
    di2 = unwrap_or b.state.knife_in false;
    di3 = b.sim_bale_open;
    ip = unwrap_or b.last_ip (no_ip fs);
    ip_valid = is_some b.last_ip;
  }

  abbrev is_completed : PulseEvent → Bool
  is_completed completed = true
  is_completed _ = false

  -- A counter method: its error is dropped.
  abbrev count :
      (CounterStore fs → Disk → CounterStore fs × Disk × Result (Unit {0}) fs.IoError)
      → Disk
      → LocalBackend fs
      → Disk × LocalBackend fs
  count method d b =
      let (counters, d', r) = method b.counters d in (d', record b { counters = counters })

  -- The end of the wrap pulse ejects a bale.
  abbrev eject : Bool → Disk → LocalBackend fs → Disk × LocalBackend fs
  eject true d b = count (Store.increment_bale fs) d (record b { sim_bale_open = true })
  eject false d b = (d, record b { sim_bale_open = false })

  abbrev tick_wrap : ℕ → Disk → LocalBackend fs → Disk × LocalBackend fs
  tick_wrap dt d b =
      let (wrap, event) = Pulse.tick b.wrap dt true in
      eject (is_completed event) d (record b { wrap = wrap })

  -- The end of a knife pulse flips the simulated knives.
  abbrev tick_knives : ℕ → LocalBackend fs → LocalBackend fs
  tick_knives dt b =
      let (knives_in, e_in) = Pulse.tick b.knives_in dt true in
      let (knives_out, e_out) = Pulse.tick b.knives_out dt true in
      record b {
        knives_in = knives_in;
        knives_out = knives_out;
        sim_knife_in =
            if is_completed e_in || is_completed e_out then not b.sim_knife_in else b.sim_knife_in;
      }

  abbrev sim_inputs : ℕ → LocalBackend fs → LocalBackend fs
  sim_inputs secs b = record b {
    state = State.on_inputs (State.on_bus_health b.state true) (leb 16 (secs % 24)) b.sim_knife_in;
  }

  unfoldable pub step : ℕ → ℕ → Disk → LocalBackend fs → Disk × LocalBackend fs × StateSnapshot
  step dt secs d b =
      let (d', b') = tick_wrap dt d (sim_inputs secs b) in
      (d', tick_knives dt b', snapshot (tick_knives dt b'))

  -- Directional and interlocked, as in the daemon.
  abbrev fire_directional : Bool → LocalBackend fs → LocalBackend fs
  fire_directional busy b =
      if not busy
      then if b.sim_knife_in
        then record b { knives_in = (Pulse.trigger b.knives_in).0 }
        else record b { knives_out = (Pulse.trigger b.knives_out).0 }
      else b

  abbrev perform : Result Action Reject → Disk → LocalBackend fs → Disk × LocalBackend fs
  perform (ok fire_wrap) d b = (d, record b { wrap = (Pulse.trigger b.wrap).0 })
  perform (ok fire_knife) d b = (d, fire_directional (knife_active b) b)
  perform (ok reset_session_action) d b = count (Store.reset_session fs) d b
  perform (ok (adjust_session_action delta)) d b = count (Store.adjust_session fs delta) d b
  perform (ok reset_total_action) d b = count (Store.reset_total fs) d b
  perform (ok switch_to_ethernet) d b = (d, record b { last_ip = some demo_ip })
  perform (ok switch_to_ethercat) d b = (d, record b { last_ip = none })
  perform (err reject) d b = (d, b)

  unfoldable pub command : Command → Disk → LocalBackend fs → Disk × LocalBackend fs
  command cmd d b =
      let (state, outcome) = State.handle b.state cmd (b.wrap.active || knife_active b) in
      perform outcome d (record b { state = state })

  -- The two knife outputs are not both driven.
  abbrev pub IsInterlocked : LocalBackend fs → Type 0
  IsInterlocked b = (b.knives_in.active && b.knives_out.active) ≡ false

  new-IsInterlocked : (store : CounterStore fs) → IsInterlocked (new store)
  unfolding new Pulse.new
  new-IsInterlocked store = refl

  step-IsInterlocked :
      (dt secs : ℕ) (d : Disk) (b : LocalBackend fs)
      → IsInterlocked b
      → IsInterlocked ((step dt secs d b).1)
  unfolding step Pulse.tick Store.increment_bale
  step-IsInterlocked dt secs d b h = ground arith

  command-IsInterlocked :
      (cmd : Command) (d : Disk) (b : LocalBackend fs)
      → IsInterlocked b
      → IsInterlocked ((command cmd d b).1)
  unfolding command Pulse.trigger Store.reset_session Store.adjust_session Store.reset_total
  command-IsInterlocked cmd d b h = ground arith

  -- The standalone panel never drives the two knife outputs together: they are off at the start, and
  -- each frame and each command keeps one of them off.
  pub interlock_kept :
      (store : CounterStore fs) (b : LocalBackend fs) (d : Disk)
      → IsInterlocked b
      → IsInterlocked (new store)
        × ((dt secs : ℕ) → IsInterlocked ((step dt secs d b).1))
        × ((cmd : Command) → IsInterlocked ((command cmd d b).1))
  interlock_kept store b d h = (
    new-IsInterlocked store,
    λ dt secs. step-IsInterlocked dt secs d b h,
    λ cmd. command-IsInterlocked cmd d b h,
  )
