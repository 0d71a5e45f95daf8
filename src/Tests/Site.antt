-- ===== src/Tests/Site.antt =====
-- The daemon and the panel over the link: a lost snapshot, a round with a key, and the loss of the bus.
use claas_rollant.Prelude.{◌≡◌, refl, true, false, [], ◌∷◌, some, arith}
use claas_rollant.State
use claas_rollant.Pulse
use claas_rollant.InputConditioner as Conditioner
use claas_rollant.Prelude.{◌≢◌}
use claas_rollant.Ipc.{StateSnapshot, operational, ethernet}
use claas_rollant.Control.{step, begin, sense, latch, count_bale, on_commands, drive, arm, snapshot}
use claas_rollant.Control.History.{run}
use claas_rollant.Transport.{first_snapshot}
use claas_rollant.Rig.Shown.Wrap.{key_wraps}
use claas_rollant.Ports.{sim_network, noop_bus}
use claas_rollant.Ui.Nav.{f1, f6, pressed, remap_fkey}
use claas_rollant.Ui.View.{push_view}
use claas_rollant.Rig.Shown.{Site, scanned, drawn, opening, scans, Becomes, begins, goes}
use claas_rollant.Rig.Shown.Loss.{loss_seen}
use claas_rollant.Tests.Data.{first, mem_fs, calm, lost, world, control, control-IsValid}

abbrev both_up : Site mem_fs sim_network noop_bus
both_up = opening mem_fs sim_network noop_bus first world control

-- One snapshot gets through and the next is lost.
abbrev two_cycles : Site mem_fs sim_network noop_bus
two_cycles =
    scanned mem_fs sim_network noop_bus calm false
      (scanned mem_fs sim_network noop_bus calm true both_up)

two_cycles-Becomes : Becomes mem_fs sim_network noop_bus both_up two_cycles
two_cycles-Becomes = goes (goes begins (scans _ calm true)) (scans _ calm false)

loss_seen_example :
    let (w', c', out, snap) =
      step mem_fs sim_network noop_bus two_cycles.world two_cycles.control lost two_cycles.queue in
    (s' : Site mem_fs sim_network noop_bus) × (drawn mem_fs sim_network noop_bus 32
        (pressed f6 ∷ [])
        []
        (scanned mem_fs sim_network noop_bus lost true two_cycles)
      ≡ some s')
    × (out.wrap ≡ false)
    × (out.knives_in ≡ false)
    × (out.knives_out ≡ false)
    × (s'.last ≡ snap)
    × (s'.display.window ≡ push_view s'.display.panel snap)
    × (s'.display.window.ethercat_healthy ≡ false)
loss_seen_example =
    loss_seen mem_fs sim_network noop_bus first world control two_cycles lost 32 (pressed f6 ∷ [])
      [] (ground arith) two_cycles-Becomes refl

-- A cycle on the healthy bus whose snapshot gets through.
abbrev running : Site mem_fs sim_network noop_bus
running = scanned mem_fs sim_network noop_bus calm true both_up

abbrev running_state : StateSnapshot
running_state = (step mem_fs sim_network noop_bus world control calm []).3

running-operational : running_state.mode ≡ operational
unfolding step begin sense latch count_bale on_commands drive arm snapshot State.on_bus_health
    State.on_inputs State.new Conditioner.update Conditioner.new
running-operational = refl

running-not_ethernet : running.control.state.mode ≢ ethernet
unfolding step begin sense latch count_bale on_commands drive arm State.on_bus_health
    State.on_inputs State.new Conditioner.update Conditioner.new
running-not_ethernet = ground arith

running-no_manual : running.control.manual_io_remaining ≡ 0
unfolding step begin sense latch count_bale on_commands drive arm Conditioner.update Conditioner.new
running-no_manual = refl

running-idle : running.control.wrap.active ≡ false
unfolding step begin sense latch count_bale on_commands drive arm Conditioner.update Conditioner.new
    Pulse.tick Pulse.new
running-idle = refl

wrap_key : remap_fkey f6 ≡ f1
unfolding remap_fkey
wrap_key = refl

key_wraps_example :
    (s' : Site mem_fs sim_network noop_bus) × (drawn mem_fs sim_network noop_bus 16
        (pressed f6 ∷ [])
        (true ∷ [])
        running
      ≡ some s')
    × (let (w', c', out, snap) =
          step mem_fs sim_network noop_bus s'.world s'.control calm s'.queue in
        (out.wrap ≡ true)
        × ((run mem_fs sim_network noop_bus
              (record { world = w'; control = c' })
              ((calm, []) ∷ [])).control.wrap.active
            ≡ true))
key_wraps_example =
    key_wraps mem_fs sim_network noop_bus first world control running running_state
      (first_snapshot ∷ []) 16 f6 calm ((calm, []) ∷ []) (ground arith) control-IsValid
      (goes begins (scans _ calm true)) refl running-operational refl refl wrap_key refl
      running-not_ethernet running-no_manual running-idle (tt, tt) (refl, tt) (refl, tt)
      (omega arith)
