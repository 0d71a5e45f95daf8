-- ===== src/State/Gating.antt =====
-- Which commands the state machine accepts, and what a refusal leaves.
use claas_rollant.Prelude.{◌≡◌, ◌↔◌, Bool, ok, err, arith}
use claas_rollant.Ipc.{Command, operational, wrap, toggle_knife}
use claas_rollant.State.{BalerState, Reject, fire_wrap, fire_knife, handle}

-- A command that is refused changes nothing.
pub handle_refused :
    (s : BalerState) (cmd : Command) (active : Bool) {r : Reject}
    → (handle s cmd active).1 ≡ err r
    → (handle s cmd active).0 ≡ s
unfolding handle
handle_refused s cmd active h = ground arith

-- A wrap pulse is fired exactly for a wrap command while the machine is operational, and a knife
-- pulse exactly for a knife command while it is operational.
pub handle-fire_iff :
    (s : BalerState) (cmd : Command) (active : Bool)
    → (((handle s cmd active).1 ≡ ok fire_wrap) ↔ ((cmd ≡ wrap) × (s.mode ≡ operational)))
      × (((handle s cmd active).1 ≡ ok fire_knife)
          ↔ ((cmd ≡ toggle_knife) × (s.mode ≡ operational)))
unfolding handle
handle-fire_iff s cmd active = ground arith
