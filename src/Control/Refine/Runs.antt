-- ===== src/Control/Refine/Runs.antt =====
-- One cycle, and whole histories: no history of cycles tells the control code from its specification.
use claas_rollant.Prelude.{◌≡◌, refl, ap, ◌∙◌, Bool, List, [], ◌∷◌, arith}
use claas_rollant.Ipc.{Command, StateSnapshot}
use claas_rollant.State
use claas_rollant.Pulse
use claas_rollant.Counter.Files.{FileSystem}
use claas_rollant.Counter.Store
use claas_rollant.Counter.Changes.{Fits}
use claas_rollant.Control.Safety.{initial-IsValid}
use claas_rollant.InputConditioner as Conditioner
use claas_rollant.InputConditioner.{Debouncer}
use claas_rollant.Ports.{Inputs, Outputs, NetworkController, BusController}
use claas_rollant.Control.{
  initial, Control, World, arm, drive, on_commands, begin, sense, latch, count_bale, step,
}
use claas_rollant.Control.Commands.{
  on_commands_keep, All-units, on_commands_got, on_commands-Untouched, has_manual,
}
use claas_rollant.Control.Invariant.{IsValid, begin-IsValid, on_commands-IsValid, step-IsValid}
use claas_rollant.Control.Manual.{begin_manual}
use claas_rollant.Control.History.{History}
use claas_rollant.Control.Spec as Spec
use claas_rollant.Control.Spec.{Machine, Levels}
use claas_rollant.Control.Refine.{left, machine, levels}
use claas_rollant.Control.Refine.Phases.{seen, begin_refines, on_commands_refines, conclude_refines}
use claas_rollant.Control.Refine.Views.{
  IsPaired, begin-IsPaired, on_command-IsPaired, raw, view_refines,
}
use claas_rollant.Control.Refine.Fed.{settled, IsFed, step-IsFed}

module _ (fs : FileSystem) (net : NetworkController) (bus : BusController) where
  raw-begin :
      (w : World fs net bus) (c : Control fs) (i : Inputs)
      → raw fs net bus (begin fs net bus w c i).control ≡ (i.bale_full, i.knife_in, i.bale_open)
  unfolding begin sense latch count_bale Store.increment_bale
  raw-begin w c i = ground arith

  drive_same :
      (i : Inputs) (b : Bool) (c : Control fs)
      → let d = (drive fs i (arm fs b c)).0 in
        (d.state ≡ c.state) × (raw fs net bus d ≡ raw fs net bus c)
  unfolding drive arm
  drive_same i b c = ground arith

  same_manual : (cmds : List Command) → Spec.has_manual net bus cmds ≡ has_manual cmds
  same_manual [] = refl
  same_manual (cmd ∷ cmds) = grind (arith, same_manual cmds)

  shown :
      (w : World fs net bus) (c : Control fs) (i : Inputs) (cmds : List Command)
      → IsValid fs c
      → let (w', c', out, snap) = step fs net bus w c i cmds in
        snap ≡ Spec.view net bus i (machine fs net bus w' c')
  unfolding step
  shown w c i cmds v =
      let y = begin fs net bus w c i in
      let z = on_commands fs net bus cmds y in
      let (state, drawn) = drive_same i z.got_manual z.control in
      let paired =
        on_commands_keep fs net bus (λ x. IsPaired fs net bus x.control.state) (λ _. Unit {0})
          (on_command-IsPaired fs net bus) cmds y (All-units cmds)
          (begin-IsPaired fs net bus w c i v) in
      view_refines fs net bus i z.world (step fs net bus w c i cmds).1
        (step-IsValid fs net bus w c i cmds v) (λ e. ground (arith, paired, state, e))
        (ground (arith, drawn, raw-begin w c i, on_commands-Untouched fs net bus cmds y))

  abbrev finish : Inputs → Machine net bus × Outputs → Machine net bus × Outputs × StateSnapshot
  finish i r = (r.0, r.1, Spec.view net bus i r.0)

  -- From a valid state a cycle gives the outputs and the snapshot that the specification gives, on the
  -- conditioned levels and the raw inputs, and leaves a state that is seen as the specification's.
  pub step_refines :
      (w : World fs net bus) (c : Control fs) (i : Inputs) (cmds : List Command)
      → IsValid fs c
      → let (w', c', out, snap) = step fs net bus w c i cmds in
        (machine fs net bus w' c', out, snap)
        ≡ Spec.cycle net bus (levels fs net bus c i) i cmds (machine fs net bus w c)
  unfolding step Spec.cycle
  step_refines w c i cmds v =
      let y = begin fs net bus w c i in
      let z = on_commands fs net bus cmds y in
      let v' = on_commands-IsValid fs net bus cmds y (begin-IsValid fs net bus w c i v) in
      let none_yet = (begin_manual fs net bus w c i).1 in
      let got : z.got_manual ≡ Spec.has_manual net bus cmds =
        ground (arith, on_commands_got fs net bus cmds y, none_yet, same_manual cmds) in
      let met : seen fs net bus z
          ≡ Spec.receive_all net bus cmds
              (Spec.observe net bus (levels fs net bus c i) (machine fs net bus w c)) =
        on_commands_refines fs net bus cmds y (begin-IsValid fs net bus w c i v)
        ∙ ap (Spec.receive_all net bus cmds) (begin_refines fs net bus w c i v) in
      let (d, out) = drive fs i (arm fs z.got_manual z.control) in
      ap (λ snap. (machine fs net bus z.world d, out, snap)) (shown w c i cmds v)
      ∙ ap (finish i) (conclude_refines fs net bus i z.got_manual z.world z.control v')
      ∙ ap (λ b. finish i (Spec.conclude net bus i.healthy b (seen fs net bus z))) got
      ∙ ap (λ m. finish i (Spec.conclude net bus i.healthy (Spec.has_manual net bus cmds) m)) met

  -- What comes out of a history of cycles, newest first, and the state after it.
  abbrev pub Trace : Type 0
  Trace = List (Outputs × StateSnapshot)

  unfoldable pub trace :
      World fs net bus → Control fs → History → World fs net bus × Control fs × Trace
  trace w c [] = (w, c, [])
  trace w c ((i, cmds) ∷ earlier) =
      let (w', c', seen_so_far) = trace w c earlier in
      let (w'', c'', out, snap) = step fs net bus w' c' i cmds in
      (w'', c'', (out, snap) ∷ seen_so_far)

  unfoldable pub spec_trace : Machine net bus → History → Machine net bus × Trace
  spec_trace m [] = (m, [])
  spec_trace m ((i, cmds) ∷ earlier) =
      let (m', seen_so_far) = spec_trace m earlier in
      let (m'', out, snap) = Spec.cycle net bus (settled fs net bus i earlier) i cmds m' in
      (m'', (out, snap) ∷ seen_so_far)

  -- A cycle of the specification, at the front of a trace.
  abbrev grow : Inputs → List Command → Levels → Machine net bus × Trace → Machine net bus × Trace
  grow i cmds l r = let (m', out, snap) = Spec.cycle net bus l i cmds r.0 in (m', (out, snap) ∷ r.1)

  boot_refines :
      (store : Store.CounterStore fs) (w : World fs net bus)
      → machine fs net bus w (initial fs store)
        ≡ Spec.boot net bus store.counters w.network w.master
  unfolding machine left State.new Pulse.new Conditioner.new
  boot_refines store w = refl

  IsFed-nothing : (store : Store.CounterStore fs) → IsFed fs net bus [] (initial fs store)
  unfolding Conditioner.feed
  IsFed-nothing store = record { full = refl; knife = refl; opened = refl }

  run_all :
      (store : Store.CounterStore fs) (w : World fs net bus) (h : History)
      → Fits store.counters
      → let (w', c', t) = trace w (initial fs store) h in
        ((machine fs net bus w' c', t)
          ≡ spec_trace (Spec.boot net bus store.counters w.network w.master) h)
        × IsValid fs c'
        × IsFed fs net bus h c'
  unfolding trace spec_trace
  run_all store w [] f =
      (ap (λ m. (m, [])) (boot_refines store w), initial-IsValid fs store f, IsFed-nothing store)
  run_all store w ((i, cmds) ∷ h) f =
      let (w', c', t) = trace w (initial fs store) h in
      let (same, valid, fed_so_far) = run_all store w h f in
      let (fed_now, level) = step-IsFed fs net bus h w' c' i cmds fed_so_far in
      let next = ap (λ r. (r.0, (r.1, r.2) ∷ t)) (step_refines w' c' i cmds valid) in
      let conditioned = ap (λ l. grow i cmds l (machine fs net bus w' c', t)) level in
      (
        next ∙ conditioned ∙ ap (grow i cmds (settled fs net bus i h)) same,
        step-IsValid fs net bus w' c' i cmds valid,
        fed_now,
      )

  -- No history of inputs and commands tells the control code from its specification: from the start,
  -- with counters that fit in a u64, every history gives the outputs and the snapshots of the
  -- specification, whose levels are those of the reference debouncer over all the samples so far.
  pub run_refines :
      (store : Store.CounterStore fs) (w : World fs net bus) (h : History)
      → Fits store.counters
      → let (w', c', t) = trace w (initial fs store) h in
        (machine fs net bus w' c', t)
        ≡ spec_trace (Spec.boot net bus store.counters w.network w.master) h
  run_refines store w h f = (run_all store w h f).0
