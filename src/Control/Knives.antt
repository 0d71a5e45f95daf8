-- ===== src/Control/Knives.antt =====
-- The output that a knife command drives.
use claas_rollant.Prelude.{◌≡◌, ◌∙◌, ◌≢◌, Bool, true, false, not, [], ◌∷◌, arith, if◌then◌else◌}
use claas_rollant.Ipc.{toggle_knife, operational, ethernet}
use claas_rollant.State
use claas_rollant.Counter.Files.{FileSystem}
use claas_rollant.Counter.Store
use claas_rollant.InputConditioner as Conditioner
use claas_rollant.Pulse
use claas_rollant.Pulse.{PulseEngine}
use claas_rollant.Pulse.Timing as Timing
use claas_rollant.Ports.{Inputs, NetworkController, BusController}
use claas_rollant.Control.{
  Control, World, Cycle, sense, latch, arm, drive, count_bale, operate, on_command, on_commands,
  begin, step, perform, fire_directional, scan, knife_active,
}
use claas_rollant.Control.Commands.{on_commands_got, on_commands-Untouched}
use claas_rollant.Control.Invariant.{IsValid}
use claas_rollant.Control.Manual.{begin_manual}
use claas_rollant.Control.Freeze.{begin-Frozen}

module _ (fs : FileSystem) (net : NetworkController) (bus : BusController) where
  -- The state that the commands of a healthy cycle meet, outside maintenance mode.
  pub begin_ready :
      (w : World fs net bus) (c : Control fs) (i : Inputs)
      → i.healthy ≡ true
      → c.state.mode ≢ ethernet
      → let d = (begin fs net bus w c i).control in
        (d.state.mode ≡ operational) × (d.knife_db ≡ (Conditioner.update c.knife_db i.knife_in).0)
  unfolding begin sense latch count_bale Store.increment_bale State.on_bus_health State.on_inputs
  begin_ready w c i h m = ground arith

  -- A pulse that is triggered or left, by a condition.
  abbrev maybe_trigger : Bool → PulseEngine → PulseEngine
  maybe_trigger go p = if go then (Pulse.trigger p).0 else p

  command_knife :
      (y : Cycle fs net bus)
      → y.control.state.mode ≡ operational
      → y.control.manual_io_remaining ≡ 0
      → knife_active fs y.control ≡ false
      → let z = on_commands fs net bus (toggle_knife ∷ []) y in
        (z.control.knives_in ≡ maybe_trigger y.control.knife_db.level y.control.knives_in)
        × (z.control.knives_out ≡ maybe_trigger (not y.control.knife_db.level) y.control.knives_out)
  unfolding on_commands on_command operate perform fire_directional State.handle
  command_knife y o m k = ground arith

  drive_off :
      (i : Inputs) (b : Bool) (c : Control fs)
      → b ≡ false
      → c.manual_io_remaining ≡ 0
      → let out = (drive fs i (arm fs b c)).1 in
        (out.knives_in ≡ (Pulse.tick c.knives_in scan i.healthy).0.active)
        × (out.knives_out ≡ (Pulse.tick c.knives_out scan i.healthy).0.active)
  unfolding drive arm
  drive_off i b c g m = ground arith

  knife_starts :
      (w : World fs net bus) (c : Control fs) (i : Inputs)
      → i.healthy ≡ true
      → c.state.mode ≢ ethernet
      → c.manual_io_remaining ≡ 0
      → knife_active fs c ≡ false
      → let (w', c', out, snap) = step fs net bus w c i (toggle_knife ∷ []) in
        let level = (Conditioner.update c.knife_db i.knife_in).0.level in
        (out.knives_in ≡ (Pulse.tick (maybe_trigger level c.knives_in) scan true).0.active)
        × (out.knives_out
            ≡ (Pulse.tick (maybe_trigger (not level) c.knives_out) scan true).0.active)
  unfolding step
  knife_starts w c i h m r idle =
      let y = begin fs net bus w c i in
      let z = on_commands fs net bus (toggle_knife ∷ []) y in
      let (mode, db) = begin_ready w c i h m in
      let (manual, got) = begin_manual fs net bus w c i in
      let frozen = begin-Frozen fs net bus w c i in
      let (ki, ko) = command_knife y mode (manual ∙ r) (ground (arith, frozen)) in
      let off = on_commands_got fs net bus (toggle_knife ∷ []) y in
      let same = (on_commands-Untouched fs net bus (toggle_knife ∷ []) y).manual_same in
      let (a, b) =
        drive_off i z.got_manual z.control (ground (arith, off, got))
          (ground (arith, same, manual, r)) in
      ground (arith, a, b, ki, ko, db, frozen, h)

  -- From a valid state, a knife command that comes alone on a healthy bus, outside maintenance and manual-IO mode
  -- and with no knife pulse in flight, drives exactly the output that the debounced DI2 of this
  -- cycle picks.
  pub knife_direction :
      (w : World fs net bus) (c : Control fs) (i : Inputs)
      → IsValid fs c
      → i.healthy ≡ true
      → c.state.mode ≢ ethernet
      → c.manual_io_remaining ≡ 0
      → knife_active fs c ≡ false
      → let (w', c', out, snap) = step fs net bus w c i (toggle_knife ∷ []) in
        let level = (Conditioner.update c.knife_db i.knife_in).0.level in
        (out.knives_in ≡ level) × (out.knives_out ≡ not level)
  knife_direction w c i v h m r idle =
      let (a, b) = knife_starts w c i h m r idle in
      ground (
        arith,
        a,
        b,
        Timing.tick_first c.knives_in scan,
        Timing.tick_first c.knives_out scan,
        Timing.tick_idle c.knives_in scan true,
        Timing.tick_idle c.knives_out scan true,
        v.in_pulse.valid.representable,
        v.out_pulse.valid.representable,
        v.in_pulse.length,
        v.out_pulse.length,
      )
