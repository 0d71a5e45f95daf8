-- ===== src/Control/Refine/Phases.antt =====
-- The phases of a cycle, and the cycle.
use claas_rollant.Prelude.{
  ◌-◌, sat_add_u64, ◌≡◌, refl, ap, ◌∙◌, Bool, false, ◌&&◌, not, List, [], ◌∷◌, none, some, arith,
  if◌then◌else◌,
}
use claas_rollant.Ipc.{
  Command, wrap, toggle_knife, reset_session, reset_total, enter_ethernet, return_to_ethercat,
  manual_io, adjust_session,
}
use claas_rollant.State
use claas_rollant.Pulse
use claas_rollant.Pulse.{PulseEngine}
use claas_rollant.Pulse.Timing as Timing
use claas_rollant.Counter.Files.{FileSystem}
use claas_rollant.Counter.Store
use claas_rollant.Ports.{Inputs, NetworkController, BusController}
use claas_rollant.Control.{
  Control, World, Cycle, scan, sense, count_bale, latch, fire_directional, arm, drive, perform,
  operate, on_command, on_commands, begin,
}
use claas_rollant.Control.Invariant.{IsValid, IsPulse, tick-IsPulse, on_command-IsValid}
use claas_rollant.State.Modes.{IsConsistent}
use claas_rollant.Control.Manual.{begin_manual, bits-begin}
use claas_rollant.Control.Freeze.{begin-Frozen}
use claas_rollant.Control.NoSwitch.{begin_links}
use claas_rollant.Control.Spec as Spec
use claas_rollant.Control.Spec.{Machine}
use claas_rollant.Control.Refine.{
  left-active, left-trigger, left-tick, known, knife_of, machine, levels,
}

module _ (fs : FileSystem) (net : NetworkController) (bus : BusController) where
  abbrev pub seen : Cycle fs net bus → Machine net bus
  seen y = machine fs net bus y.world y.control

  sense_known :
      (s : State.BalerState) (h f k : Bool)
      → IsConsistent s
      → let s' =
          if h then State.on_inputs (State.on_bus_health s h) f k else State.on_bus_health s h in
        let mode = Spec.next_mode net bus s.mode h in
        (s'.mode ≡ mode)
        × (known s' ≡ (if Spec.is_operational net bus mode then some (f, k) else none))
  unfolding State.on_bus_health State.on_inputs
  sense_known s h f k v = ground (arith, v)

  -- What the start of a cycle sets, field by field.
  pub begin_state :
      (w : World fs net bus) (c : Control fs) (i : Inputs)
      → IsConsistent c.state
      → let d = (begin fs net bus w c i).control in
        let l = levels fs net bus c i in
        let mode = Spec.next_mode net bus c.state.mode i.healthy in
        (d.state.mode ≡ mode)
        × (known d.state
            ≡ (if Spec.is_operational net bus mode then some (l.full, l.knife) else none))
        × (d.knife_db.level ≡ l.knife)
        × (d.last_ip ≡ c.last_ip)
  unfolding begin sense latch count_bale Store.increment_bale
  begin_state w c i v =
      let l = levels fs net bus c i in
      ground (arith, sense_known c.state i.healthy l.full l.knife v)

  begin_counts :
      (w : World fs net bus) (c : Control fs) (i : Inputs)
      → let d = (begin fs net bus w c i).control in
        let l = levels fs net bus c i in
        let bale = i.healthy && (l.opened && not c.last_open_level) in
        let old = c.counters.counters in
        (d.full_latch_remaining
          ≡ (if i.healthy && l.full then Spec.latch_cycles else c.full_latch_remaining - 1))
        × (d.last_open_level ≡ l.opened)
        × (d.counters.counters.session ≡ (if bale then sat_add_u64 old.session 1 else old.session))
        × (d.counters.counters.total ≡ (if bale then sat_add_u64 old.total 1 else old.total))
  unfolding begin sense latch count_bale Store.increment_bale Store.bump
  begin_counts w c i = ground arith

  pub begin_refines :
      (w : World fs net bus) (c : Control fs) (i : Inputs)
      → IsValid fs c
      → seen (begin fs net bus w c i)
        ≡ Spec.observe net bus (levels fs net bus c i) (machine fs net bus w c)
  unfolding machine Spec.observe
  begin_refines w c i v =
      let (manual, got) = begin_manual fs net bus w c i in
      let (network, master) = begin_links fs net bus w c i in
      ground (
        arith,
        begin_state w c i v.consistent,
        begin_counts w c i,
        manual,
        network,
        master,
        bits-begin fs net bus w c i,
        begin-Frozen fs net bus w c i,
      )

  wrap_refines :
      (y : Cycle fs net bus)
      → IsValid fs y.control
      → seen (operate fs net bus wrap y) ≡ Spec.obey net bus y.control.state.mode wrap (seen y)
  unfolding machine operate perform State.handle
  wrap_refines y v = ground (arith, left-trigger net bus y.control.wrap v.wrap_pulse)

  fire_refines :
      (c : Control fs)
      → IsValid fs c
      → let d = fire_directional fs c in
        knife_of d.knives_in d.knives_out
        ≡ Spec.start_knife net bus c.knife_db.level (knife_of c.knives_in c.knives_out)
  unfolding fire_directional
  fire_refines c v = ground (
    arith,
    left-trigger net bus c.knives_in v.in_pulse,
    left-trigger net bus c.knives_out v.out_pulse,
    left-active c.knives_in v.in_pulse,
    left-active c.knives_out v.out_pulse,
    Timing.active-trigger c.knives_in,
    Timing.active-trigger c.knives_out,
  )

  knife_refines :
      (y : Cycle fs net bus)
      → IsValid fs y.control
      → seen (operate fs net bus toggle_knife y)
        ≡ Spec.obey net bus y.control.state.mode toggle_knife (seen y)
  unfolding machine operate perform State.handle fire_directional
  knife_refines y v = ground (arith, fire_refines y.control v)

  operate_refines :
      (cmd : Command) (y : Cycle fs net bus)
      → IsValid fs y.control
      → seen (operate fs net bus cmd y) ≡ Spec.obey net bus y.control.state.mode cmd (seen y)
  unfolding machine operate perform State.handle fire_directional Store.reset_session
      Store.adjust_session Store.reset_total Store.session_cleared Store.adjusted
      Store.total_cleared
  operate_refines wrap y v = wrap_refines y v
  operate_refines toggle_knife y v = knife_refines y v
  operate_refines enter_ethernet y v = ground (arith, left-active y.control.wrap v.wrap_pulse)
  operate_refines return_to_ethercat y v = ground arith
  operate_refines reset_session y v = ground arith
  operate_refines (adjust_session d) y v = ground arith
  operate_refines reset_total y v = ground arith
  operate_refines (manual_io w i o) y v = ground arith

  on_command_refines :
      (cmd : Command) (y : Cycle fs net bus)
      → IsValid fs y.control
      → seen (on_command fs net bus cmd y) ≡ Spec.receive net bus cmd (seen y)
  unfolding on_command Spec.receive machine
  on_command_refines (manual_io w i o) y v = refl
  on_command_refines cmd y v = ground (arith, operate_refines cmd y v)

  pub on_commands_refines :
      (cmds : List Command) (y : Cycle fs net bus)
      → IsValid fs y.control
      → seen (on_commands fs net bus cmds y) ≡ Spec.receive_all net bus cmds (seen y)
  unfolding on_commands Spec.receive_all
  on_commands_refines [] y v = refl
  on_commands_refines (cmd ∷ cmds) y v =
      let z = on_command fs net bus cmd y in
      on_commands_refines cmds z (on_command-IsValid fs net bus cmd y v)
      ∙ ap (Spec.receive_all net bus cmds) (on_command_refines cmd y v)

  ticks_refine :
      (h : Bool) (p q : PulseEngine)
      → IsPulse p
      → IsPulse q
      → (p.active && q.active) ≡ false
      → let k = knife_of (Pulse.tick p scan h).0 (Pulse.tick q scan h).0 in
        (k ≡ Spec.spend_knife net bus h (knife_of p q))
        × (Spec.is_inwards net bus k ≡ (Pulse.tick p scan h).0.active)
        × (Spec.is_outwards net bus k ≡ (Pulse.tick q scan h).0.active)
  ticks_refine h p q v u apart = ground (
    arith,
    left-tick net bus p h v,
    left-tick net bus q h u,
    left-active p v,
    left-active q u,
    left-active (Pulse.tick p scan h).0 (tick-IsPulse p scan h v),
    left-active (Pulse.tick q scan h).0 (tick-IsPulse q scan h u),
  )

  pub conclude_refines :
      (i : Inputs) (b : Bool) (w : World fs net bus) (c : Control fs)
      → IsValid fs c
      → let (d, out) = drive fs i (arm fs b c) in
        (machine fs net bus w d, out) ≡ Spec.conclude net bus i.healthy b (machine fs net bus w c)
  unfolding machine drive arm Spec.conclude
  conclude_refines i b w c v =
      let p = c.wrap in
      ground (
        arith,
        ticks_refine i.healthy c.knives_in c.knives_out v.in_pulse v.out_pulse v.interlocked,
        left-tick net bus p i.healthy v.wrap_pulse,
        left-active (Pulse.tick p scan i.healthy).0 (tick-IsPulse p scan i.healthy v.wrap_pulse),
      )
