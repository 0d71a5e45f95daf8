-- ===== src/State.antt =====
-- The master mode state machine: src/baler-core/src/state.rs. A method returns the new state.
pub mod Gating
pub mod Modes
use claas_rollant.Prelude.{
  Bool, true, false, ◌&&◌, Option, none, some, ℤ, Result, ok, err, if◌then◌else◌,
}
use claas_rollant.Ipc.{
  Mode, initializing, operational, fault, ethernet, Command, wrap, toggle_knife, reset_session,
  reset_total, enter_ethernet, return_to_ethercat, manual_io, adjust_session,
}

pub data Action : Type 0 where
  fire_wrap fire_knife : Action
  reset_session_action : Action
  adjust_session_action : ℤ → Action
  reset_total_action : Action
  switch_to_ethernet switch_to_ethercat : Action

pub data Reject : Type 0 where
  not_ready not_idle already_ethernet not_in_ethernet : Reject

pub record BalerState : Type 0 where
  pub mode : Mode
  pub bale_full : Bool
  pub knife_in : Option Bool

unfoldable pub new : BalerState
new = record { mode = initializing; bale_full = false; knife_in = none }

abbrev pub is_operational : Mode → Bool
is_operational operational = true
is_operational _ = false

abbrev pub is_ethernet : Mode → Bool
is_ethernet ethernet = true
is_ethernet _ = false

unfoldable pub wrap_armed : BalerState → Bool
wrap_armed s = is_operational s.mode && s.bale_full

abbrev pub mark_inputs_unknown : BalerState → BalerState
mark_inputs_unknown s = record s { bale_full = false; knife_in = none }

-- The mode after a cycle in which the bus is not healthy.
abbrev pub mode_on_loss : Mode → Mode
mode_on_loss operational = fault
mode_on_loss fault = fault
mode_on_loss _ = initializing

unfoldable pub on_bus_health : BalerState → Bool → BalerState
on_bus_health s healthy =
    if is_ethernet s.mode
    then s
    else if healthy
    then record s { mode = operational }
    else record (mark_inputs_unknown s) { mode = mode_on_loss s.mode }

unfoldable pub on_inputs : BalerState → Bool → Bool → BalerState
on_inputs s full knife =
    if is_operational s.mode then record s { bale_full = full; knife_in = some knife } else s

abbrev pub require_operational : BalerState → Action → Result Action Reject
require_operational s a = if is_operational s.mode then ok a else err not_ready

-- `EnterEthernet`, by the current mode.
abbrev pub handle_enter : Mode → BalerState → Bool → BalerState × Result Action Reject
handle_enter ethernet s active = (s, err already_ethernet)
handle_enter operational s true = (s, err not_idle)
handle_enter _ s active =
    (mark_inputs_unknown (record s { mode = ethernet }), ok switch_to_ethernet)

unfoldable pub handle : BalerState → Command → Bool → BalerState × Result Action Reject
handle s wrap active = (s, require_operational s fire_wrap)
handle s toggle_knife active = (s, require_operational s fire_knife)
handle s reset_session active = (s, ok reset_session_action)
handle s (adjust_session delta) active = (s, ok (adjust_session_action delta))
handle s reset_total active = (s, ok reset_total_action)
handle s enter_ethernet active = handle_enter s.mode s active
handle s return_to_ethercat active =
    if is_ethernet s.mode
    then (record s { mode = initializing }, ok switch_to_ethercat)
    else (s, err not_in_ethernet)
handle s (manual_io w i o) active = (s, err not_ready)
