-- ===== src/State/Modes.antt =====
-- The mode diagram, and what the status inputs say in each mode.
use claas_rollant.Prelude.{not, ◌≡◌, ◌≢◌, ◌↔◌, Bool, true, false, none, ok, arith}
use claas_rollant.Ipc.{
  Mode, Command, initializing, operational, fault, ethernet, enter_ethernet, return_to_ethercat,
}
use claas_rollant.State.{
  BalerState, new, on_bus_health, on_inputs, handle, wrap_armed, switch_to_ethernet,
}

-- What calls on the state machine can come to it.
pub data Call : Type 0 where
  health : Bool → Call
  inputs : Bool → Bool → Call
  command : Command → Bool → Call

-- The calls that leave a mode. `EnterEthernet` does so unless a pulse is in flight while operational.
abbrev pub leaves : Mode → Call → Bool
leaves initializing (health h) = h
leaves operational (health h) = not h
leaves fault (health h) = h
leaves operational (command enter_ethernet active) = not active
leaves initializing (command enter_ethernet active) = true
leaves fault (command enter_ethernet active) = true
leaves ethernet (command return_to_ethercat active) = true
leaves _ _ = false

-- The mode diagram: the mode before, the call, and the mode after.
pub data Moves : Mode → Call → Mode → Type 0 where
  stay : {m : Mode} {c : Call} → leaves m c ≡ false → Moves m c m
  boot : Moves initializing (health true) operational
  lose : Moves operational (health false) fault
  recover : Moves fault (health true) operational
  maintain :
      {m : Mode} {b : Bool}
      → leaves m (command enter_ethernet b) ≡ true
      → Moves m (command enter_ethernet b) ethernet
  leave : {b : Bool} → Moves ethernet (command return_to_ethercat b) initializing

pub call : BalerState → Call → BalerState
call s (health h) = on_bus_health s h
call s (inputs full knife) = on_inputs s full knife
call s (command cmd active) = (handle s cmd active).0

-- Every call moves the mode along an edge of the diagram, or keeps it if no edge leaves the mode by
-- that call: a healthy bus leads to operational, a loss of the bus while operational to fault,
-- `EnterEthernet` to ethernet unless a pulse is in flight while operational, and `ReturnToEthercat`
-- alone leaves ethernet, for initializing.
pub call-Moves : (s : BalerState) (c : Call) → Moves s.mode c (call s c).mode
unfolding call on_bus_health on_inputs handle
call-Moves s c = grind (arith, stay, boot, lose, recover, maintain, leave)

-- Outside operational the inputs are unknown.
pub record IsConsistent (s : BalerState) : Type 0 where
  pub full_hidden : s.mode ≢ operational → s.bale_full ≡ false
  pub knife_hidden : s.mode ≢ operational → s.knife_in ≡ none

pub new-IsConsistent : IsConsistent new
unfolding new
new-IsConsistent = ground arith

-- Every call keeps the inputs unknown outside operational.
pub call-IsConsistent : (s : BalerState) (c : Call) → IsConsistent s → IsConsistent (call s c)
unfolding call on_bus_health on_inputs handle
call-IsConsistent s c v = ground arith

pub on_bus_health-IsConsistent :
    (s : BalerState) (h : Bool) → IsConsistent s → IsConsistent (on_bus_health s h)
unfolding call
on_bus_health-IsConsistent s h v = call-IsConsistent s (health h) v

pub on_inputs-IsConsistent :
    (s : BalerState) (f k : Bool) → IsConsistent s → IsConsistent (on_inputs s f k)
unfolding call
on_inputs-IsConsistent s f k v = call-IsConsistent s (inputs f k) v

pub handle-IsConsistent :
    (s : BalerState) (cmd : Command) (active : Bool)
    → IsConsistent s
    → IsConsistent (handle s cmd active).0
unfolding call
handle-IsConsistent s cmd active v = call-IsConsistent s (command cmd active) v

-- A consistent state arms the wrap key only when it is operational with a full bale.
pub wrap_armed-operational :
    (s : BalerState) → wrap_armed s ≡ true → (s.mode ≡ operational) × (s.bale_full ≡ true)
unfolding wrap_armed
wrap_armed-operational s h = ground arith

-- `EnterEthernet` is accepted exactly when the mode is not ethernet and, if it is operational, no
-- pulse is in flight.
pub handle-enter_iff :
    (s : BalerState) (active : Bool)
    → ((handle s enter_ethernet active).1 ≡ ok switch_to_ethernet)
      ↔ ((s.mode ≢ ethernet) × ((s.mode ≡ operational) → active ≡ false))
unfolding handle
handle-enter_iff s active = grind arith

pub on_bus_health-ethernet :
    (s : BalerState) (h : Bool) → s.mode ≡ ethernet → (on_bus_health s h).mode ≡ ethernet
unfolding on_bus_health
on_bus_health-ethernet s h e = ground arith

pub mode-on_inputs : (s : BalerState) (f k : Bool) → (on_inputs s f k).mode ≡ s.mode
unfolding on_inputs
mode-on_inputs s f k = ground arith
