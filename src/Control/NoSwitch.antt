-- ===== src/Control/NoSwitch.antt =====
-- Cycles without a command that switches the mode: they leave the links and the mode alone.
use claas_rollant.Prelude.{◌≡◌, ◌∙◌, ap, sym, ◌≢◌, Bool, List, All, arith}
use claas_rollant.Ipc.{Command, enter_ethernet, return_to_ethercat, manual_io, ethernet}
use claas_rollant.State
use claas_rollant.Counter.Files.{FileSystem}
use claas_rollant.Counter.Store
use claas_rollant.Ports.{Inputs, NetworkController, BusController}
use claas_rollant.Control.{
  Control, World, Cycle, sense, latch, arm, drive, count_bale, operate, on_command, on_commands,
  begin, step, perform, fire_directional,
}
use claas_rollant.Control.Commands.{on_commands_keep}

-- Neither of the two commands that switch the mode.
abbrev pub IsNoSwitch : Command → Type 0
IsNoSwitch enter_ethernet = ⊥
IsNoSwitch return_to_ethercat = ⊥
IsNoSwitch _ = Unit {0}

module _ (fs : FileSystem) (net : NetworkController) (bus : BusController) where
  -- The network and the bus master of one world are those of another.
  abbrev pub SameLinks : World fs net bus → World fs net bus → Type 0
  SameLinks w v = (v.network ≡ w.network) × (v.master ≡ w.master)

  operate_links :
      (w : World fs net bus) (cmd : Command) (y : Cycle fs net bus)
      → IsNoSwitch cmd
      → SameLinks w y.world
      → SameLinks w (operate fs net bus cmd y).world
  unfolding operate perform State.handle Store.reset_session Store.adjust_session Store.reset_total
      fire_directional
  operate_links w enter_ethernet y q e = absurd q
  operate_links w return_to_ethercat y q e = absurd q
  operate_links w cmd y q e = ground arith

  on_command_links :
      (w : World fs net bus) (cmd : Command) (y : Cycle fs net bus)
      → IsNoSwitch cmd
      → SameLinks w y.world
      → SameLinks w (on_command fs net bus cmd y).world
  unfolding on_command
  on_command_links w (manual_io a b o) y q e = e
  on_command_links w cmd y q e = ground (arith, operate_links w cmd y q e)

  pub begin_links :
      (w : World fs net bus) (c : Control fs) (i : Inputs)
      → SameLinks w (begin fs net bus w c i).world
  unfolding begin count_bale Store.increment_bale
  begin_links w c i = ground arith

  -- A cycle without a mode command leaves the network and the bus master untouched, whatever its
  -- inputs and its other commands are.
  pub step_links :
      (w : World fs net bus) (c : Control fs) (i : Inputs) (cmds : List Command)
      → All IsNoSwitch cmds
      → SameLinks w (step fs net bus w c i cmds).0
  unfolding step
  step_links w c i cmds q =
      on_commands_keep fs net bus (λ y. SameLinks w y.world) IsNoSwitch (on_command_links w) cmds
        (begin fs net bus w c i) q (begin_links w c i)

  pub drive_mode :
      (i : Inputs) (b : Bool) (c : Control fs)
      → let d = (drive fs i (arm fs b c)).0 in (d.state ≡ c.state) × (d.last_ip ≡ c.last_ip)
  unfolding drive arm
  drive_mode i b c = ground arith

  pub begin_mode :
      (w : World fs net bus) (c : Control fs) (i : Inputs)
      → c.state.mode ≢ ethernet
      → (begin fs net bus w c i).control.state.mode ≢ ethernet
  unfolding begin sense latch count_bale Store.increment_bale State.on_bus_health State.on_inputs
  begin_mode w c i m = ground arith

  operate_stays :
      (cmd : Command) (y : Cycle fs net bus)
      → IsNoSwitch cmd
      → y.control.state.mode ≢ ethernet
      → (operate fs net bus cmd y).control.state.mode ≢ ethernet
  unfolding operate perform State.handle Store.reset_session Store.adjust_session Store.reset_total
      fire_directional
  operate_stays enter_ethernet y q e = absurd q
  operate_stays return_to_ethercat y q e = absurd q
  operate_stays cmd y q e = ground arith

  on_command_stays :
      (cmd : Command) (y : Cycle fs net bus)
      → IsNoSwitch cmd
      → y.control.state.mode ≢ ethernet
      → (on_command fs net bus cmd y).control.state.mode ≢ ethernet
  unfolding on_command
  on_command_stays (manual_io a b o) y q e = e
  on_command_stays cmd y q e = ground (arith, operate_stays cmd y q e)

  -- A cycle without a mode command does not enter Ethernet mode.
  pub step_stays :
      (w : World fs net bus) (c : Control fs) (i : Inputs) (cmds : List Command)
      → All IsNoSwitch cmds
      → c.state.mode ≢ ethernet
      → (step fs net bus w c i cmds).1.state.mode ≢ ethernet
  unfolding step
  step_stays w c i cmds q e =
      let y = begin fs net bus w c i in
      let z = on_commands fs net bus cmds y in
      let kept =
        on_commands_keep fs net bus (λ y. y.control.state.mode ≢ ethernet) IsNoSwitch
          on_command_stays cmds y q (begin_mode w c i e) in
      let (state, ip) = drive_mode i z.got_manual z.control in
      λ m. kept (ap (λ s. s.mode) (sym state) ∙ m)
