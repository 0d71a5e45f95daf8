-- ===== src/Tests/Refine.antt =====
-- The refinements and the interleavings, at concrete histories.
use claas_rollant.Prelude.{
  ℕ, zero, suc, ◌≤◌, ◌≡◌, ◌≢◌, refl, true, false, List, [], ◌∷◌, some, ok, arith, replicate,
}
use claas_rollant.Ipc.{operational, ethernet, manual_io, enter_ethernet, wrap}
use claas_rollant.Ports.{sim_network, noop_bus}
use claas_rollant.State
use claas_rollant.Control.{initial, step, manual_io_watchdog}
use claas_rollant.Control.Spec as Spec
use claas_rollant.Control.Refine.{machine}
use claas_rollant.Control.Refine.Runs.{trace, spec_trace, run_refines}
use claas_rollant.Control.History.{History}
use claas_rollant.Counter.Shadow.{Event, change_to, cut_off, bale, Shadow, LivesAll}
use claas_rollant.Counter.PowerCycles.{disk_log, Device, Shows, life, life_refines}
use claas_rollant.Counter.Store.{load}
use claas_rollant.Counter.Format.{parse, parse_lines, parse_line}
use claas_rollant.Prelude.Text.{lines}
use claas_rollant.Ui.Nav.{main, io_test, f5, f6, pressed, next_nav, remap_fkey}
use claas_rollant.Ui.Language.{de}
use claas_rollant.Ui.Panel.{Panel, zero_pin, frame, on_event, on_events, press_main, unlocked}
use claas_rollant.Rig.{Rig, Move, draw, scan_cycle, move, moves}
use claas_rollant.Rig.Locked.{locked_moves, AreLocked}
use claas_rollant.Rig.Deadman.{away_moves, IsAway, cycles}
use claas_rollant.Tests.Data.{mem_fs, disk, store, calm, lost, world, control, control-IsValid}

abbrev short_history : History
short_history = (lost, []) ∷ (calm, enter_ethernet ∷ []) ∷ (calm, wrap ∷ []) ∷ []

run_refines_example :
    let (w', c', t) =
      trace mem_fs sim_network noop_bus world (initial mem_fs store) short_history in
    (machine mem_fs sim_network noop_bus w' c', t)
    ≡ spec_trace mem_fs sim_network noop_bus
        (Spec.boot sim_network noop_bus store.counters tt tt)
        short_history
run_refines_example =
    run_refines mem_fs sim_network noop_bus store world short_history
      (record { session_fits = omega arith; total_fits = omega arith })

two_files : true ≢ false
two_files = ground arith

abbrev device : Device mem_fs true two_files
device = record { counters = store.counters; disk = disk }

abbrev shadow : Shadow
shadow = record { memory = store.counters; durable = store.counters }

device-Shows : Shows mem_fs true two_files device shadow
unfolding load parse parse_lines parse_line lines
device-Shows = record {
  held = refl;
  written = refl;
  memory_fits = record { session_fits = omega arith; total_fits = omega arith };
  durable_fits = record { session_fits = omega arith; total_fits = omega arith };
}

abbrev rough_life : List Event
rough_life = change_to bale ∷ cut_off bale 2 ∷ change_to bale ∷ []

life_refines_example :
    (v' : Device mem_fs true two_files) × (s' : Shadow) × (life mem_fs true two_files rough_life
        device
      ≡ ok v')
    × LivesAll shadow rough_life (disk_log mem_fs true two_files rough_life device) s'
    × Shows mem_fs true two_files v' s'
life_refines_example = life_refines mem_fs true two_files rough_life device shadow device-Shows

-- The main screen, with no PIN entered.
abbrev main_panel : Panel
main_panel = record {
  nav = main;
  menu = record { pin = zero_pin; cursor = 0; ethernet_selected = false };
  lang = de;
  io_wrap_held = false;
  io_knives_in_held = false;
  io_knives_out_held = false;
}

abbrev rig : Rig mem_fs sim_network noop_bus
rig = record { panel = main_panel; queue = []; world = world; control = control }

-- A wrap is asked for, and the daemon runs a cycle on it.
abbrev locked_run : List Move
locked_run = draw operational (pressed f6 ∷ []) (true ∷ []) ∷ scan_cycle calm ∷ []

abbrev after_locked : Rig mem_fs sim_network noop_bus
after_locked =
    let (w, c, out, snap) = step mem_fs sim_network noop_bus world control calm (wrap ∷ []) in
    record { panel = main_panel; queue = []; world = w; control = c }

locked_run-locked : AreLocked mem_fs sim_network noop_bus locked_run rig
unfolding move frame on_event on_events press_main remap_fkey unlocked next_nav
locked_run-locked = ((λ h. omega (arith, h.0), tt), tt)

locked_run_end : moves mem_fs sim_network noop_bus locked_run rig ≡ some after_locked
unfolding moves move frame on_event on_events press_main remap_fkey next_nav
locked_run_end = refl

not_ethernet : control.state.mode ≢ ethernet
unfolding State.new
not_ethernet = ground arith

locked_moves_example :
    (after_locked.control.state.mode ≢ ethernet)
    × (after_locked.world.network ≡ tt)
    × (after_locked.world.master ≡ tt)
    × (41 ≤ after_locked.control.counters.counters.total)
locked_moves_example =
    locked_moves mem_fs sim_network noop_bus locked_run rig after_locked control-IsValid tt
      not_ethernet locked_run-locked locked_run_end

-- The IO test page with the wrap key held and one message on its way.
abbrev open_rig : Rig mem_fs sim_network noop_bus
open_rig = record rig {
  panel = record main_panel { nav = io_test; io_wrap_held = true };
  queue = manual_io true false false ∷ [];
}

abbrev leaving : List Move
leaving = draw operational (pressed f5 ∷ []) [] ∷ replicate 31 (scan_cycle calm)

scans-IsAway :
    (n : ℕ) (r : Rig mem_fs sim_network noop_bus)
    → IsAway mem_fs sim_network noop_bus (replicate n (scan_cycle calm)) r
unfolding move
scans-IsAway zero r = tt
scans-IsAway (suc n) r = (tt, scans-IsAway n _)

leaving-IsAway : IsAway mem_fs sim_network noop_bus leaving open_rig
unfolding move frame on_event on_events remap_fkey next_nav
leaving-IsAway = (ground arith, scans-IsAway 31 (record open_rig { panel = main_panel }))

leaving-cycles : suc manual_io_watchdog ≤ cycles leaving
unfolding cycles
leaving-cycles = omega arith

away_moves_example :
    (s : Rig mem_fs sim_network noop_bus) × (moves mem_fs sim_network noop_bus leaving open_rig
      ≡ some s)
    × (s.control.manual_io_remaining ≡ 0)
away_moves_example =
    away_moves mem_fs sim_network noop_bus leaving open_rig control-IsValid (omega arith)
      leaving-IsAway leaving-cycles
