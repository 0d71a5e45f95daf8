-- ===== src/Control/Safety.antt =====
-- Output safety: the knife interlock, and what a cycle with an unhealthy bus does.
use claas_rollant.Prelude.{
  ◌≡◌, refl, ◌≢◌, Bool, false, ◌&&◌, List, Result, ok, err, arith, subst, ok_injective,
}
use claas_rollant.Ipc.{Command, operational, wrap, manual_io}
use claas_rollant.State
use claas_rollant.State.{BalerState}
use claas_rollant.State.Modes.{new-IsConsistent}
use claas_rollant.InputConditioner.Invariant as Debounce
use claas_rollant.InputConditioner as Conditioner
use claas_rollant.Counter.Files.{FileSystem, ReadError}
use claas_rollant.Counter.Changes.{Fits, load-Fits}
use claas_rollant.Counter.Store
use claas_rollant.Pulse
use claas_rollant.Pulse.Timing as Timing
use claas_rollant.Ports.{Inputs, NetworkController, BusController}
use claas_rollant.Control.{
  Control, World, Cycle, initial, new, sense, latch, arm, drive, fire_directional, count_bale,
  perform, operate, on_command, on_commands, begin, step, snapshot, pulse, built,
}
use claas_rollant.Control.Commands.{on_commands_keep, All-units}
use claas_rollant.Control.Invariant.{IsValid, on_commands-IsValid, begin-IsValid, arm-IsValid}

module _ (fs : FileSystem) where
  pub initial-IsValid :
      (store : Store.CounterStore fs) → Fits store.counters → IsValid fs (initial fs store)
  unfolding Pulse.new Conditioner.new
  initial-IsValid store f =
      ground (arith, Timing.new-IsValid pulse, Debounce.new-IsValid 3 false, new-IsConsistent)

  -- A control cycle that is built starts valid, whatever the counter file held.
  pub new-IsValid :
      (path : fs.FilePath) (disk : fs.Disk) {c : Control fs}
      → new fs path disk ≡ ok c
      → IsValid fs c
  unfolding new
  new-IsValid path disk {c} e = split (Store.load fs path disk) refl e
    where
      split :
          (r : Result (Store.CounterStore fs) ReadError)
          → Store.load fs path disk ≡ r
          → built fs r ≡ ok c
          → IsValid fs c
      split (ok store) l e =
          let v = initial-IsValid store (load-Fits fs path disk l) in
          subst (IsValid fs) (ok_injective e) v
      split (err x) l e = cc

  drive_interlock :
      (i : Inputs) (c : Control fs)
      → IsValid fs c
      → let out = (drive fs i c).1 in (out.knives_in && out.knives_out) ≡ false
  unfolding drive
  drive_interlock i c v = ground (
    arith,
    Timing.active-tick c.knives_in 10_000_000 i.healthy,
    Timing.active-tick c.knives_out 10_000_000 i.healthy,
  )

  drive_unhealthy :
      (i : Inputs) (c : Control fs)
      → i.healthy ≡ false
      → let out = (drive fs i c).1 in
        (out.wrap ≡ false) × (out.knives_in ≡ false) × (out.knives_out ≡ false)
  unfolding drive
  drive_unhealthy i c h = ground (
    arith,
    Timing.tick_unhealthy c.wrap 10_000_000,
    Timing.tick_unhealthy c.knives_in 10_000_000,
    Timing.tick_unhealthy c.knives_out 10_000_000,
  )

module _ (fs : FileSystem) (net : NetworkController) (bus : BusController) where
  -- The two knife outputs are never driven together, in manual-IO mode or outside it, for all inputs
  -- and commands of the cycle.
  pub step_interlock :
      (w : World fs net bus) (c : Control fs) (i : Inputs) (cmds : List Command)
      → IsValid fs c
      → let out = (step fs net bus w c i cmds).2 in (out.knives_in && out.knives_out) ≡ false
  unfolding step
  step_interlock w c i cmds v =
      let y = on_commands fs net bus cmds (begin fs net bus w c i) in
      drive_interlock fs i (arm fs y.got_manual y.control) (
        arm-IsValid fs y.got_manual y.control (
          on_commands-IsValid fs net bus cmds (begin fs net bus w c i)
            (begin-IsValid fs net bus w c i v)))

  abbrev IsDown : Cycle fs net bus → Type 0
  IsDown y = y.control.state.mode ≢ operational

  operate-IsDown :
      (cmd : Command) (y : Cycle fs net bus) → IsDown y → IsDown (operate fs net bus cmd y)
  unfolding operate perform State.handle Store.reset_session Store.adjust_session Store.reset_total
      fire_directional
  operate-IsDown wrap y d = ground arith
  operate-IsDown cmd y d = ground arith

  on_command-IsDown :
      (cmd : Command) (y : Cycle fs net bus)
      → Unit {0}
      → IsDown y
      → IsDown (on_command fs net bus cmd y)
  unfolding on_command
  on_command-IsDown (manual_io w i o) y q d = ground arith
  on_command-IsDown cmd y q d = ground (arith, operate-IsDown cmd y d)

  begin-IsDown :
      (w : World fs net bus) (c : Control fs) (i : Inputs)
      → i.healthy ≡ false
      → IsDown (begin fs net bus w c i)
  unfolding begin sense latch count_bale Store.increment_bale State.on_bus_health
  begin-IsDown w c i h = ground arith

  mode-drive :
      (i : Inputs) (b : Bool) (c : Control fs) → (drive fs i (arm fs b c)).0.state ≡ c.state
  unfolding drive arm
  mode-drive i b c = ground arith

  -- A cycle that sees an unhealthy bus drives every output low, whatever the state was and whatever
  -- was commanded, and ends outside operational.
  pub step_unhealthy :
      (w : World fs net bus) (c : Control fs) (i : Inputs) (cmds : List Command)
      → i.healthy ≡ false
      → let (w', c', out, snap) = step fs net bus w c i cmds in
        (out.wrap ≡ false)
        × (out.knives_in ≡ false)
        × (out.knives_out ≡ false)
        × (snap.mode ≢ operational)
  unfolding step snapshot
  step_unhealthy w c i cmds h =
      let y = on_commands fs net bus cmds (begin fs net bus w c i) in
      let (a, b, d) = drive_unhealthy fs i (arm fs y.got_manual y.control) h in
      let down =
        on_commands_keep fs net bus IsDown (λ _. Unit {0}) on_command-IsDown cmds
          (begin fs net bus w c i) (All-units cmds) (begin-IsDown w c i h) in
      (a, b, d, ground (arith, down, mode-drive i y.got_manual y.control))
