-- ===== src/Control/AnyBus.antt =====
-- The control cycle does not depend on the bus master that it runs beside.
use claas_rollant.Prelude.{
  ◌≡◌, refl, ap, ◌∙◌, Bool, true, false, List, [], ◌∷◌, Result, ok, err, Bool-cases, inl, inr, ltb,
  if◌then◌else◌, ◌&&◌, not,
}
use claas_rollant.Ipc.{Command, manual_io}
use claas_rollant.State.{
  Action, Reject, fire_wrap, fire_knife, reset_session_action, adjust_session_action,
  reset_total_action, switch_to_ethernet, switch_to_ethercat,
}
use claas_rollant.Counter.Files.{FileSystem}
use claas_rollant.Ports.{Inputs, NetworkController, BusController, noop_bus}
use claas_rollant.Control.{
  Control, World, Cycle, sense, count_bale, operate, on_command, on_commands, begin, step, perform,
}

module _ (fs : FileSystem) (net : NetworkController) (bus : BusController) where
  -- The world and the cycle beside a bus that is not there.
  abbrev pub without_bus : World fs net bus → World fs net noop_bus
  without_bus w = record { disk = w.disk; network = w.network; master = tt }

  abbrev strip : World fs net bus × Control fs → World fs net noop_bus × Control fs
  strip (w, c) = (without_bus w, c)

  abbrev strip_cycle : Cycle fs net bus → Cycle fs net noop_bus
  strip_cycle y = record {
    world = without_bus y.world;
    control = y.control;
    got_manual = y.got_manual;
  }

  perform-strip :
      (o : Result Action Reject) (w : World fs net bus) (c : Control fs)
      → perform fs net noop_bus o (without_bus w) c ≡ strip (perform fs net bus o w c)
  unfolding perform
  perform-strip (ok fire_wrap) w c = refl
  perform-strip (ok fire_knife) w c = refl
  perform-strip (ok reset_session_action) w c = refl
  perform-strip (ok (adjust_session_action delta)) w c = refl
  perform-strip (ok reset_total_action) w c = refl
  perform-strip (ok switch_to_ethernet) w c = refl
  perform-strip (ok switch_to_ethercat) w c = refl
  perform-strip (err reject) w c = refl

  operate-strip :
      (cmd : Command) (y : Cycle fs net bus)
      → operate fs net noop_bus cmd (strip_cycle y) ≡ strip_cycle (operate fs net bus cmd y)
  unfolding operate
  operate-strip cmd y =
      ap
        (λ (p : World fs net noop_bus × Control fs). record (strip_cycle y) {
          world = p.0;
          control = p.1;
        })
        (perform-strip _ y.world _)

  strip_cycle-if :
      (b : Bool) (p q : Cycle fs net bus)
      → (if b then strip_cycle p else strip_cycle q) ≡ strip_cycle (if b then p else q)
  strip_cycle-if true p q = refl
  strip_cycle-if false p q = refl

  on_command-strip :
      (cmd : Command) (y : Cycle fs net bus)
      → on_command fs net noop_bus cmd (strip_cycle y) ≡ strip_cycle (on_command fs net bus cmd y)
  unfolding on_command
  on_command-strip (manual_io w i o) y = refl
  on_command-strip cmd y =
      ap
        (λ (z : Cycle fs net noop_bus).
          if ltb 0 y.control.manual_io_remaining then strip_cycle y else z)
        (operate-strip cmd y)
      ∙ strip_cycle-if (ltb 0 y.control.manual_io_remaining) y (operate fs net bus cmd y)

  on_commands-strip :
      (cmds : List Command) (y : Cycle fs net bus)
      → on_commands fs net noop_bus cmds (strip_cycle y)
        ≡ strip_cycle (on_commands fs net bus cmds y)
  unfolding on_commands
  on_commands-strip [] y = refl
  on_commands-strip (cmd ∷ cmds) y =
      ap (on_commands fs net noop_bus cmds) (on_command-strip cmd y)
      ∙ on_commands-strip cmds (on_command fs net bus cmd y)

  begin-strip :
      (w : World fs net bus) (c : Control fs) (i : Inputs)
      → begin fs net noop_bus (without_bus w) c i ≡ strip_cycle (begin fs net bus w c i)
  unfolding begin count_bale
  begin-strip w c i =
      elim (Bool-cases
        (i.healthy && ((sense fs i c).open_db.level && not (sense fs i c).last_open_level))) [
          | inl y ↦ rw y refl
          | inr n ↦ rw n refl
        ]

  -- Beside any bus master, the control cycle has the control state, the disk, the network, the outputs
  -- and the snapshot that it has beside none: the two run paths of the daemon share one control logic.
  pub step-without_bus :
      (w : World fs net bus) (c : Control fs) (i : Inputs) (cmds : List Command)
      → let (w', c', out, snap) = step fs net bus w c i cmds in
        step fs net noop_bus (without_bus w) c i cmds ≡ (without_bus w', c', out, snap)
  unfolding step
  step-without_bus w c i cmds =
      let whole : on_commands fs net noop_bus cmds (begin fs net noop_bus (without_bus w) c i)
          ≡ strip_cycle (on_commands fs net bus cmds (begin fs net bus w c i)) =
        ap (on_commands fs net noop_bus cmds) (begin-strip w c i)
        ∙ on_commands-strip cmds (begin fs net bus w c i) in
      rw whole refl
