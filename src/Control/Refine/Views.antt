-- ===== src/Control/Refine/Views.antt =====
-- The snapshot of the code against that of the specification, and what the inputs keep for it.
use claas_rollant.Prelude.{◌≡◌, ap, Bool, false, none, arith}
use claas_rollant.Ipc.{Command, wrap, manual_io}
use claas_rollant.State
use claas_rollant.Counter.Files.{FileSystem}
use claas_rollant.Counter.Store
use claas_rollant.Ports.{Inputs, NetworkController, BusController}
use claas_rollant.Control.{
  Control, World, Cycle, fire_directional, perform, operate, on_command, begin, snapshot,
}
use claas_rollant.Control.Invariant.{IsValid, begin-IsValid}
use claas_rollant.Control.Spec as Spec
use claas_rollant.Control.Spec.{Machine}
use claas_rollant.Control.Refine.{left-active, machine}
use claas_rollant.Control.Refine.Phases.{begin_state}

module _ (fs : FileSystem) (net : NetworkController) (bus : BusController) where
  -- Inputs of which the knife position is unknown show no full bale.
  abbrev pub IsPaired : State.BalerState → Type 0
  IsPaired s = s.knife_in ≡ none → s.bale_full ≡ false

  pub begin-IsPaired :
      (w : World fs net bus) (c : Control fs) (i : Inputs)
      → IsValid fs c
      → IsPaired (begin fs net bus w c i).control.state
  begin-IsPaired w c i v =
      let d = (begin fs net bus w c i).control in
      ground (
        arith,
        begin_state fs net bus w c i v.consistent,
        (begin-IsValid fs net bus w c i v).consistent,
      )

  operate-IsPaired :
      (cmd : Command) (y : Cycle fs net bus)
      → IsPaired y.control.state
      → IsPaired (operate fs net bus cmd y).control.state
  unfolding operate perform State.handle fire_directional Store.reset_session Store.adjust_session
      Store.reset_total
  operate-IsPaired wrap y p = ground arith
  operate-IsPaired cmd y p = ground arith

  pub on_command-IsPaired :
      (cmd : Command) (y : Cycle fs net bus)
      → Unit {0}
      → IsPaired y.control.state
      → IsPaired (on_command fs net bus cmd y).control.state
  unfolding on_command
  on_command-IsPaired (manual_io w i o) y u p = p
  on_command-IsPaired cmd y u p = ground (arith, operate-IsPaired cmd y p)

  -- The raw inputs that are shown.
  abbrev pub raw : Control fs → Bool × Bool × Bool
  raw c = (c.last_di1, c.last_di2, c.last_di3)

  pub view_refines :
      (i : Inputs) (w : World fs net bus) (c : Control fs)
      → IsValid fs c
      → IsPaired c.state
      → raw c ≡ (i.bale_full, i.knife_in, i.bale_open)
      → snapshot fs c ≡ Spec.view net bus i (machine fs net bus w c)
  unfolding snapshot Spec.view machine State.wrap_armed
  view_refines i w c v p e = ground (
    arith,
    left-active c.wrap v.wrap_pulse,
    left-active c.knives_in v.in_pulse,
    left-active c.knives_out v.out_pulse,
    ap (λ (t : Bool × Bool × Bool). t.0) e,
    ap (λ (t : Bool × Bool × Bool). t.1) e,
    ap (λ (t : Bool × Bool × Bool). t.2) e,
  )
