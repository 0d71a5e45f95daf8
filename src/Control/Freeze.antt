-- ===== src/Control/Freeze.antt =====
-- What manual-IO mode leaves alone: the pulses, the machine and the world.
use claas_rollant.Prelude.{◌<◌, ◌≡◌, Bool, List, arith}
use claas_rollant.Ipc.{Command, manual_io}
use claas_rollant.Counter.Files.{FileSystem}
use claas_rollant.Counter.Store
use claas_rollant.Ports.{Inputs, NetworkController, BusController}
use claas_rollant.Control.{
  Control, World, Cycle, sense, latch, arm, drive, count_bale, on_command, on_commands, begin, step,
}
use claas_rollant.Control.Commands.{on_commands_keep, All-units, has_manual, on_commands_got}
use claas_rollant.Control.Manual.{next_remaining, begin_manual}

module _ (fs : FileSystem) (net : NetworkController) (bus : BusController) where
  -- The three pulse engines stand as they were.
  pub record Frozen (c d : Control fs) : Type 0 where
    pub wrap_same : d.wrap ≡ c.wrap
    pub in_same : d.knives_in ≡ c.knives_in
    pub out_same : d.knives_out ≡ c.knives_out

  pub begin-Frozen :
      (w : World fs net bus) (c : Control fs) (i : Inputs)
      → Frozen c (begin fs net bus w c i).control
  unfolding begin sense latch count_bale Store.increment_bale
  begin-Frozen w c i = ground arith

  -- In manual-IO mode a command leaves the world and the machine alone.
  pub record Suspended (y z : Cycle fs net bus) : Type 0 where
    pub world_same : z.world ≡ y.world
    pub state_same : z.control.state ≡ y.control.state
    pub counters_same : z.control.counters ≡ y.control.counters
    pub latch_same : z.control.full_latch_remaining ≡ y.control.full_latch_remaining
    pub frozen : Frozen y.control z.control
    pub manual_same : z.control.manual_io_remaining ≡ y.control.manual_io_remaining

  on_command-Suspended :
      (y : Cycle fs net bus)
      → 0 < y.control.manual_io_remaining
      → (cmd : Command) (z : Cycle fs net bus) → Unit {0}
      → Suspended y z
      → Suspended y (on_command fs net bus cmd z)
  unfolding on_command
  on_command-Suspended y p (manual_io w i o) z q k = ground arith
  on_command-Suspended y p cmd z q k = ground arith

  -- While manual-IO mode is on, no command reaches the state machine: the world, the mode, the
  -- counters, the full latch and the pulses are the same after all the commands of a cycle.
  pub manual_suspends :
      (cmds : List Command) (y : Cycle fs net bus)
      → 0 < y.control.manual_io_remaining
      → Suspended y (on_commands fs net bus cmds y)
  manual_suspends cmds y p =
      on_commands_keep fs net bus (Suspended y) (λ _. Unit {0}) (on_command-Suspended y p) cmds y
        (All-units cmds) (ground arith)

  drive-Frozen :
      (i : Inputs) (b : Bool) (c : Control fs)
      → 0 < next_remaining fs net bus b c.manual_io_remaining
      → Frozen c (drive fs i (arm fs b c)).0
  unfolding drive arm
  drive-Frozen i b c h = ground arith

  -- A cycle that begins and ends in manual-IO mode leaves all three pulses exactly as they were: they
  -- are not advanced, and also not aborted when the bus is unhealthy.
  pub manual_freezes_pulses :
      (w : World fs net bus) (c : Control fs) (i : Inputs) (cmds : List Command)
      → 0 < c.manual_io_remaining
      → 0 < next_remaining fs net bus (has_manual cmds) c.manual_io_remaining
      → Frozen c (step fs net bus w c i cmds).1
  unfolding step
  manual_freezes_pulses w c i cmds p h =
      let y = begin fs net bus w c i in
      let z = on_commands fs net bus cmds y in
      let (m, g) = begin_manual fs net bus w c i in
      let k = manual_suspends cmds y (omega (arith, m)) in
      let got = on_commands_got fs net bus cmds y in
      ground (
        arith,
        begin-Frozen w c i,
        k.frozen,
        k.manual_same,
        m,
        g,
        got,
        drive-Frozen i z.got_manual z.control,
      )
