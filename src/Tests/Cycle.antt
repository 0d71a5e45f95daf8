-- ===== src/Tests/Cycle.antt =====
-- The control cycle, on the bale that is lost, wrapped and counted.
use claas_rollant.State
use claas_rollant.Pulse
use claas_rollant.Prelude.{
  zero, suc, ap, ◌||◌, ℕ, ◌+◌, ◌<◌, ◌≡◌, ◌≢◌, refl, true, false, not, ◌&&◌, List, [], ◌∷◌, min,
  max_u64, arith, All, replicate, length, is_some, to_option, if◌then◌else◌, ltb,
}
use claas_rollant.Ipc.{
  Command, wrap, toggle_knife, reset_session, enter_ethernet, manual_io, operational, ethernet,
}
use claas_rollant.Ports.{Inputs, sim_network, noop_bus}
use claas_rollant.Control.Commands.{has_manual}
use claas_rollant.Control.{
  Control, step, knife_active, sense, latch, count_bale, on_command, drive, arm, snapshot,
  on_commands, begin, pulse_outputs,
}
use claas_rollant.Control.History.{History, run, run_interlock}
use claas_rollant.Control.Invariant.{IsValid, step-IsValid}
use claas_rollant.Control.Safety.{step_unhealthy}
use claas_rollant.Control.Manual.{step_outputs, held_outputs, next_remaining, held, bits}
use claas_rollant.Control.Freeze.{manual_freezes_pulses, Frozen}
use claas_rollant.Control.Pulses.{wrap_pulse_cycles, no_auto_wrap}
use claas_rollant.Control.Knives.{knife_direction}
use claas_rollant.Control.Latch.{IsNoWrap, sees_full, latch_holds}
use claas_rollant.Control.Counting.{total-run, bales}
use claas_rollant.Control.Maintenance.{step_enter}
use claas_rollant.InputConditioner as Conditioner
use claas_rollant.Tests.Data.{
  mem_fs, store, calm, lost, world, control, system, started, control-IsValid,
}

initial-not_ethernet : control.state.mode ≢ ethernet
unfolding State.new
initial-not_ethernet = ground arith

initial-idle : control.wrap.active ≡ false
unfolding Pulse.new
initial-idle = refl

initial-no_knife : knife_active mem_fs control ≡ false
unfolding Pulse.new
initial-no_knife = refl

initial-idle_all : (control.wrap.active || knife_active mem_fs control) ≡ false
unfolding Pulse.new
initial-idle_all = refl

-- A knife command in one cycle and manual bits for both knives in the next, newest first.
abbrev busy : History
busy = (calm, manual_io true true true ∷ []) ∷ (calm, toggle_knife ∷ wrap ∷ []) ∷ []

run_interlock_example :
    let t = run mem_fs sim_network noop_bus system busy in
    let out = (step mem_fs sim_network noop_bus t.world t.control calm (toggle_knife ∷ [])).2 in
    (out.knives_in && out.knives_out) ≡ false
run_interlock_example =
    run_interlock mem_fs sim_network noop_bus true world started busy calm (toggle_knife ∷ [])

step_unhealthy_example :
    let (w', c', out, snap) =
      step mem_fs sim_network noop_bus world control lost (wrap ∷ manual_io true true true ∷ []) in
    (out.wrap ≡ false)
    × (out.knives_in ≡ false)
    × (out.knives_out ≡ false)
    × (snap.mode ≢ operational)
step_unhealthy_example =
    step_unhealthy mem_fs sim_network noop_bus world control lost
      (wrap ∷ manual_io true true true ∷ []) refl

-- The baler opens for three samples, with a wrap command on the way.
abbrev opened : Inputs
opened = record calm { bale_open = true }

abbrev ejection : History
ejection = (opened, []) ∷ (opened, wrap ∷ []) ∷ (opened, reset_session ∷ []) ∷ (calm, []) ∷ []

total-run_example :
    (run mem_fs sim_network noop_bus system ejection).control.counters.counters.total
    ≡ min (41 + bales ejection) max_u64
total-run_example =
    total-run mem_fs sim_network noop_bus store world ejection (omega arith)
      (tt, ((tt, tt), ((tt, tt), (tt, tt))))

-- `ManualIo` with all three bits, in a cycle after which manual-IO mode is on.
abbrev hold : Command
hold = manual_io true true true

step_outputs_example :
    let (w', c', out, snap) =
      step mem_fs sim_network noop_bus world control calm (wrap ∷ hold ∷ []) in
    out ≡ (
      if ltb 0 (next_remaining mem_fs sim_network noop_bus (has_manual (wrap ∷ hold ∷ [])) 0)
      then held_outputs mem_fs sim_network noop_bus true (
          held mem_fs sim_network noop_bus
            (wrap ∷ hold ∷ [])
            (bits mem_fs sim_network noop_bus control))
      else pulse_outputs mem_fs c')
step_outputs_example =
    step_outputs mem_fs sim_network noop_bus world control calm (wrap ∷ hold ∷ [])

-- Quiet cycles in a row.
abbrev idle : ℕ → History
idle n = replicate n (calm, [])

All-idle : (P : Inputs × List Command → Type 0) (n : ℕ) → P (calm, []) → All P (idle n)
All-idle P zero p = tt
All-idle P (suc n) p = (p, All-idle P n p)

length-idle : (n : ℕ) → length (idle n) ≡ n
length-idle zero = refl
length-idle (suc n) = ap suc (length-idle n)

abbrev held_control : Control mem_fs
held_control = record control { manual_io_remaining = 30; manual_wrap = true }

held_control-IsValid : IsValid mem_fs held_control
held_control-IsValid = ground (arith, control-IsValid)

-- A wrap pulse in flight, in manual-IO mode.
abbrev flying : Control mem_fs
flying = record held_control { wrap = (Pulse.trigger held_control.wrap).0 }

manual_freezes_pulses_example :
    Frozen mem_fs sim_network noop_bus flying
      (step mem_fs sim_network noop_bus world flying lost []).1
manual_freezes_pulses_example =
    manual_freezes_pulses mem_fs sim_network noop_bus world flying lost [] (omega arith)
      (omega arith)

wrap_pulse_cycles_example :
    let (w', c', out, snap) = step mem_fs sim_network noop_bus world control calm (wrap ∷ []) in
    let t = run mem_fs sim_network noop_bus (record { world = w'; control = c' }) (idle 498) in
    let (w'', c'', later, snap') = step mem_fs sim_network noop_bus t.world t.control calm [] in
    (out.wrap ≡ true)
    × (length (idle 498) < 498 → later.wrap ≡ true)
    × (length (idle 498) ≡ 498 → later.wrap ≡ false)
wrap_pulse_cycles_example =
    wrap_pulse_cycles mem_fs sim_network noop_bus world control calm calm [] (idle 498)
      control-IsValid refl initial-not_ethernet refl initial-idle
      (All-idle (λ c. All IsNoWrap c.1) 499 tt) (All-idle (λ c. has_manual c.1 ≡ false) 499 refl)
      (All-idle (λ c. c.0.healthy ≡ true) 499 refl)

still_flying :
    (run mem_fs sim_network noop_bus
      (record { world = world; control = flying })
      ((calm, reset_session ∷ []) ∷ [])).control.wrap.active
    ≡ true
unfolding run step begin sense latch count_bale on_commands on_command drive arm Pulse.new
    Pulse.trigger Conditioner.update Conditioner.new
still_flying = refl

no_auto_wrap_example : flying.wrap.active ≡ true
unfolding run
no_auto_wrap_example =
    no_auto_wrap mem_fs sim_network noop_bus (record { world = world; control = flying })
      ((calm, reset_session ∷ []) ∷ []) ((refl, tt), tt) still_flying

knife_direction_example :
    let (w', c', out, snap) =
      step mem_fs sim_network noop_bus world control calm (toggle_knife ∷ []) in
    let level = (Conditioner.update control.knife_db true).0.level in
    (out.knives_in ≡ level) × (out.knives_out ≡ not level)
knife_direction_example =
    knife_direction mem_fs sim_network noop_bus world control calm control-IsValid refl
      initial-not_ethernet refl initial-no_knife

-- The full input debounced: its third sample in a row.
abbrev full : Inputs
full = record calm { bale_full = true }

abbrev almost : Control mem_fs
almost = record control {
  full_db = record { threshold = 3; level = false; candidate = true; count = 2 };
}

almost-sees_full : sees_full mem_fs sim_network noop_bus almost full ≡ true
unfolding Conditioner.update
almost-sees_full = refl

latch_holds_example :
    let (w', c', out, snap) = step mem_fs sim_network noop_bus world almost full [] in
    (snapshot mem_fs
      (run mem_fs sim_network noop_bus
        (record { world = w'; control = c' })
        (idle 1999)).control).full_latched
    ≡ true
latch_holds_example =
    latch_holds mem_fs sim_network noop_bus world almost full [] (idle 1999) almost-sees_full tt
      (All-idle (λ c. All IsNoWrap c.1) 1999 tt) (omega (arith, length-idle 1999))

step_enter_example :
    let (w', c', out, snap) =
      step mem_fs sim_network noop_bus world control lost (enter_ethernet ∷ []) in
    (w'.master ≡ noop_bus.suspend tt)
    × (w'.network ≡ (sim_network.enter_ethernet tt).0)
    × (snap.mode ≡ ethernet)
    × (snap.ip_valid ≡ is_some (to_option (sim_network.enter_ethernet tt).1))
step_enter_example =
    step_enter mem_fs sim_network noop_bus world control lost refl initial-not_ethernet
      initial-idle_all

step-IsValid_example :
    IsValid mem_fs
      (step mem_fs sim_network noop_bus world held_control full (toggle_knife ∷ hold ∷ [])).1
step-IsValid_example =
    step-IsValid mem_fs sim_network noop_bus world held_control full (toggle_knife ∷ hold ∷ [])
      held_control-IsValid
