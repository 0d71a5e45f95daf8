-- ===== src/Control/Invariant.antt =====
-- What holds of the control state between two cycles.
use claas_rollant.Prelude.{ℕ, ◌≤◌, ◌≡◌, Bool, true, false, ◌&&◌, List, [], ◌∷◌, is_some, arith}
use claas_rollant.Ipc.{
  Command, ethernet, manual_io, wrap, toggle_knife, reset_session, reset_total, enter_ethernet,
  return_to_ethercat, adjust_session,
}
use claas_rollant.State
use claas_rollant.State.{Action, Reject}
use claas_rollant.State.Modes.{
  IsConsistent, on_bus_health-ethernet, mode-on_inputs, on_bus_health-IsConsistent,
  on_inputs-IsConsistent,
}
use claas_rollant.InputConditioner as Conditioner
use claas_rollant.InputConditioner.Invariant as Debounce
use claas_rollant.Pulse
use claas_rollant.Pulse.Timing as Timing
use claas_rollant.Counter.Files.{FileSystem}
use claas_rollant.Counter.Store
use claas_rollant.Counter.Changes.{
  Fits, bump-Fits, adjusted-Fits, session_cleared-Fits, total_cleared-Fits,
}
use claas_rollant.Ports.{Inputs, NetworkController, BusController}
use claas_rollant.Control.{
  Control, World, Cycle, pulse, scan, full_latch_cycles, manual_io_watchdog, sense, latch, arm,
  drive, fire_directional, count_bale, perform, operate, on_command, on_commands, begin, step,
}

-- A pulse engine of 5 s in a valid state.
pub record IsPulse (p : Pulse.PulseEngine) : Type 0 where
  pub valid : Timing.IsValid p
  pub length : p.duration ≡ pulse

pub trigger-IsPulse : (p : Pulse.PulseEngine) → IsPulse p → IsPulse (Pulse.trigger p).0
trigger-IsPulse p v = ground (arith, Timing.trigger-IsValid p v.valid, Timing.duration-trigger p)

pub tick-IsPulse :
    (p : Pulse.PulseEngine) (dt : ℕ) (h : Bool) → IsPulse p → IsPulse (Pulse.tick p dt h).0
tick-IsPulse p dt h v =
    ground (arith, Timing.tick-IsValid p dt h v.valid, Timing.duration-tick p dt h)

module _ (fs : FileSystem) where
  pub record IsValid (c : Control fs) : Type 0 where
    pub interlocked : (c.knives_in.active && c.knives_out.active) ≡ false
    pub consistent : IsConsistent c.state
    pub wrap_pulse : IsPulse c.wrap
    pub in_pulse : IsPulse c.knives_in
    pub out_pulse : IsPulse c.knives_out
    pub full_valid : Debounce.IsValid c.full_db
    pub knife_valid : Debounce.IsValid c.knife_db
    pub open_valid : Debounce.IsValid c.open_db
    pub addressed : is_some c.last_ip ≡ true → c.state.mode ≡ ethernet
    pub latch_bound : c.full_latch_remaining ≤ full_latch_cycles
    pub manual_bound : c.manual_io_remaining ≤ manual_io_watchdog
    pub counters_fit : Fits c.counters.counters

  latch-IsValid : (i : Inputs) (c : Control fs) → IsValid c → IsValid (latch fs i c)
  unfolding latch
  latch-IsValid i c v = ground arith

  pub arm-IsValid : (b : Bool) (c : Control fs) → IsValid c → IsValid (arm fs b c)
  unfolding arm
  arm-IsValid b c v = ground arith

  fire_directional-IsValid : (c : Control fs) → IsValid c → IsValid (fire_directional fs c)
  unfolding fire_directional
  fire_directional-IsValid c v =
      ground
        (arith, trigger-IsPulse c.knives_in v.in_pulse, trigger-IsPulse c.knives_out v.out_pulse)

  sense-IsValid : (i : Inputs) (c : Control fs) → IsValid c → IsValid (sense fs i c)
  unfolding sense
  sense-IsValid i c v =
      let s = State.on_bus_health c.state i.healthy in
      let full = (Conditioner.update c.full_db i.bale_full).0 in
      let knife = (Conditioner.update c.knife_db i.knife_in).0 in
      ground (
        arith,
        on_bus_health-IsConsistent c.state i.healthy v.consistent,
        on_bus_health-ethernet c.state i.healthy,
        on_inputs-IsConsistent s full.level knife.level,
        mode-on_inputs s full.level knife.level,
        Debounce.update-IsValid c.full_db i.bale_full v.full_valid,
        Debounce.update-IsValid c.knife_db i.knife_in v.knife_valid,
        Debounce.update-IsValid c.open_db i.bale_open v.open_valid,
      )

  drive-IsValid : (i : Inputs) (c : Control fs) → IsValid c → IsValid (drive fs i c).0
  unfolding drive
  drive-IsValid i c v = ground (
    arith,
    tick-IsPulse c.wrap scan i.healthy v.wrap_pulse,
    tick-IsPulse c.knives_in scan i.healthy v.in_pulse,
    tick-IsPulse c.knives_out scan i.healthy v.out_pulse,
    Timing.active-tick c.knives_in scan i.healthy,
    Timing.active-tick c.knives_out scan i.healthy,
  )

module _ (fs : FileSystem) (net : NetworkController) (bus : BusController) where
  count_bale-IsValid :
      (i : Inputs) (w : World fs net bus) (c : Control fs)
      → IsValid fs c
      → IsValid fs (count_bale fs net bus i w c).1
  unfolding count_bale Store.increment_bale
  count_bale-IsValid i w c v = ground (arith, bump-Fits c.counters.counters v.counters_fit)

  pub operate-IsValid :
      (cmd : Command) (y : Cycle fs net bus)
      → IsValid fs y.control
      → IsValid fs (operate fs net bus cmd y).control
  unfolding operate perform State.handle Store.reset_session Store.adjust_session Store.reset_total
  operate-IsValid wrap y v =
      let c = y.control in ground (arith, trigger-IsPulse c.wrap v.wrap_pulse)
  operate-IsValid toggle_knife y v =
      let c = y.control in ground (arith, fire_directional-IsValid fs c v)
  operate-IsValid reset_session y v =
      let c = y.control in ground (arith, session_cleared-Fits c.counters.counters v.counters_fit)
  operate-IsValid reset_total y v =
      let c = y.control in ground (arith, total_cleared-Fits c.counters.counters v.counters_fit)
  operate-IsValid enter_ethernet y v = ground arith
  operate-IsValid return_to_ethercat y v = ground arith
  operate-IsValid (manual_io w i o) y v = v
  operate-IsValid (adjust_session d) y v =
      let c = y.control in ground (arith, adjusted-Fits d c.counters.counters v.counters_fit)

  pub on_command-IsValid :
      (cmd : Command) (y : Cycle fs net bus)
      → IsValid fs y.control
      → IsValid fs (on_command fs net bus cmd y).control
  unfolding on_command
  on_command-IsValid (manual_io w i o) y v = ground arith
  on_command-IsValid cmd y v = ground (arith, operate-IsValid cmd y v)

  pub on_commands-IsValid :
      (cmds : List Command) (y : Cycle fs net bus)
      → IsValid fs y.control
      → IsValid fs (on_commands fs net bus cmds y).control
  unfolding on_commands
  on_commands-IsValid [] y v = v
  on_commands-IsValid (cmd ∷ cmds) y v =
      on_commands-IsValid cmds (on_command fs net bus cmd y) (on_command-IsValid cmd y v)

  pub begin-IsValid :
      (w : World fs net bus) (c : Control fs) (i : Inputs)
      → IsValid fs c
      → IsValid fs (begin fs net bus w c i).control
  unfolding begin
  begin-IsValid w c i v =
      latch-IsValid fs i _ (count_bale-IsValid i w (sense fs i c) (sense-IsValid fs i c v))

  -- A cycle from a valid state ends in a valid state, for all inputs and commands: the knife pulses
  -- are interlocked, the inputs unknown outside operational, the pulses and debouncers valid, an
  -- address is held only in Ethernet mode, the two timers are bounded and the counters fit in a
  -- u64.
  pub step-IsValid :
      (w : World fs net bus) (c : Control fs) (i : Inputs) (cmds : List Command)
      → IsValid fs c
      → IsValid fs (step fs net bus w c i cmds).1
  unfolding step
  step-IsValid w c i cmds v =
      let y = on_commands fs net bus cmds (begin fs net bus w c i) in
      drive-IsValid fs i _ (
        arm-IsValid fs y.got_manual y.control
          (on_commands-IsValid cmds (begin fs net bus w c i) (begin-IsValid w c i v)))
