-- ===== src/Ui/Panel.antt =====
-- The event loop of the panel: the PIN entry, the keys of each screen and one frame, from `main` in
-- src/baler-ui/src/main.rs. The frame's messages and saves are its result, in their order; what is
-- drawn is left out.
use claas_rollant.Prelude.{
  ℕ, ◌+◌, ◌-◌, ◌%◌, Bool, true, false, not, ◌&&◌, List, [], ◌∷◌, ◌++◌, Option, none, some, pos,
  negsuc, if◌then◌else◌, ltb, ◌==◌,
}
use claas_rollant.Ipc.{
  Mode, Command, wrap, toggle_knife, reset_session, reset_total, enter_ethernet, return_to_ethercat,
  manual_io, adjust_session,
}
use claas_rollant.Ui.Nav.{
  Button, f1, f2, f3, f4, f5, f6, up, down, left, right, ButtonEvent, pressed, released, remap_fkey,
  Nav, main, service, ethernet_screen, fault_screen, io_test, next_nav,
}
use claas_rollant.Ui.Language.{Lang, other}

-- `[u8; 4]`
pub record Pin : Type 0 where
  pub d0 : ℕ
  pub d1 : ℕ
  pub d2 : ℕ
  pub d3 : ℕ

abbrev pub service_pin : Pin
service_pin = record { d0 = 1; d1 = 2; d2 = 3; d3 = 4 }

abbrev pub zero_pin : Pin
zero_pin = record { d0 = 0; d1 = 0; d2 = 0; d3 = 0 }

-- `pin[i] = f(pin[i])`: none stands for the panic out of range.
abbrev pub update_digit : (ℕ → ℕ) → ℕ → Pin → Option Pin
update_digit f i p =
    if i == 0
    then some (record p { d0 = f p.d0 })
    else if i == 1
    then some (record p { d1 = f p.d1 })
    else if i == 2
    then some (record p { d2 = f p.d2 })
    else if i == 3
    then some (record p { d3 = f p.d3 })
    else none

pub record ServiceState : Type 0 where
  pub pin : Pin
  pub cursor : ℕ
  pub ethernet_selected : Bool

abbrev pub new_service : ServiceState
new_service = record { pin = zero_pin; cursor = 0; ethernet_selected = false }

abbrev pub reset : ServiceState → ServiceState
reset s = record s { pin = zero_pin; cursor = 0 }

unfoldable pub unlocked : ServiceState → Bool
unlocked s = (s.pin.d0 == 1) && ((s.pin.d1 == 2) && ((s.pin.d2 == 3) && (s.pin.d3 == 4)))

-- A place of the PIN as it is shown: `i` is the place and `d` its digit.
abbrev pub place : ℕ → ℕ → ℕ → ℕ
place cursor i d = if i == cursor then b'0' + d else if ltb i cursor then b'*' else b'_'

unfoldable pub display : ServiceState → List ℕ
display s =
    place s.cursor 0 s.pin.d0
    ∷ place s.cursor 1 s.pin.d1
    ∷ place s.cursor 2 s.pin.d2
    ∷ place s.cursor 3 s.pin.d3
    ∷ []

-- What the panel does beside its own state: `backend.command` and `save_lang`.
pub data Effect : Type 0 where
  send : Command → Effect
  save_lang : Lang → Effect

pub record Panel : Type 0 where
  pub nav : Nav
  pub menu : ServiceState
  pub lang : Lang
  pub io_wrap_held : Bool
  pub io_knives_in_held : Bool
  pub io_knives_out_held : Bool

abbrev pub release_all : Panel → Panel
release_all p = record p {
  io_wrap_held = false;
  io_knives_in_held = false;
  io_knives_out_held = false;
}

-- The keys of the IO test page, after the remapping.
abbrev pub io_pressed : Button → Panel → Panel
io_pressed f1 p = record p { io_wrap_held = true }
io_pressed f2 p = record p { io_knives_in_held = true }
io_pressed f3 p = record p { io_knives_out_held = true }
io_pressed f6 p = record (release_all p) { nav = main }
io_pressed _ p = p

abbrev pub io_released : Button → Panel → Panel
io_released f1 p = record p { io_wrap_held = false }
io_released f2 p = record p { io_knives_in_held = false }
io_released f3 p = record p { io_knives_out_held = false }
io_released _ p = p

-- Resets the PIN entry and goes to a screen.
abbrev pub leave_to : Nav → Panel → Panel
leave_to n p = record p { nav = n; menu = reset p.menu }

unfoldable pub press_main : Button → Panel → Panel × List Effect
press_main f1 p = (p, send wrap ∷ [])
press_main f2 p = (p, send toggle_knife ∷ [])
press_main f3 p = (p, send reset_session ∷ [])
press_main f4 p = (p, send (adjust_session (pos 1)) ∷ [])
press_main f5 p = (p, send (adjust_session (negsuc 0)) ∷ [])
press_main f6 p = (leave_to service p, [])
press_main _ p = (p, [])

abbrev pub turn_digit : ℕ → Panel → Option (Panel × List Effect)
turn_digit step p = elim (update_digit (λ d. (d + step) % 10) p.menu.cursor p.menu.pin) [
  | none ↦ none
  | some q ↦ some (record p { menu = record p.menu { pin = q } }, [])
]

-- F2 of the service screen, with the right PIN.
abbrev pub switch_network : Panel → Panel × List Effect
switch_network p = (
  record p { menu = record p.menu { ethernet_selected = not p.menu.ethernet_selected } },
  send (if not p.menu.ethernet_selected then enter_ethernet else return_to_ethercat) ∷ [],
)

unfoldable pub press_service : Button → Panel → Option (Panel × List Effect)
press_service up p = turn_digit 1 p
press_service down p = turn_digit 9 p
press_service left p = some (record p { menu = record p.menu { cursor = p.menu.cursor - 1 } }, [])
press_service right p = some (
  if ltb p.menu.cursor 3
      then record p { menu = record p.menu { cursor = p.menu.cursor + 1 } }
      else p,
  [],
)
press_service f1 p = some (p, if unlocked p.menu then send reset_total ∷ [] else [])
press_service f2 p = some (if unlocked p.menu then switch_network p else (p, []))
press_service f3 p =
    some (if unlocked p.menu then record (release_all p) { nav = io_test } else p, [])
press_service f4 p = some (record p { lang = other p.lang }, save_lang (other p.lang) ∷ [])
press_service f6 p = some (leave_to main p, [])
press_service _ p = some (p, [])

unfoldable pub press_ethernet : Button → Panel → Panel × List Effect
press_ethernet f1 p =
    (record p { menu = record p.menu { ethernet_selected = false } }, send return_to_ethercat ∷ [])
press_ethernet _ p = (p, [])

unfoldable pub press_fault : Button → Panel → Panel × List Effect
press_fault f6 p = (leave_to service p, [])
press_fault _ p = (p, [])

-- One key event on the screen `n`: none stands for a panic.
abbrev pub event_on : Nav → ButtonEvent → Panel → Option (Panel × List Effect)
event_on io_test (pressed b) p = some (io_pressed (remap_fkey b) p, [])
event_on io_test (released b) p = some (io_released (remap_fkey b) p, [])
event_on main (pressed b) p = some (press_main (remap_fkey b) p)
event_on service (pressed b) p = press_service (remap_fkey b) p
event_on ethernet_screen (pressed b) p = some (press_ethernet (remap_fkey b) p)
event_on fault_screen (pressed b) p = some (press_fault (remap_fkey b) p)
event_on _ (released b) p = some (p, [])

unfoldable pub on_event : ButtonEvent → Panel → Option (Panel × List Effect)
on_event ev p = event_on p.nav ev p

-- The loop over the events of a frame.
unfoldable pub on_events : List ButtonEvent → Panel → Option (Panel × List Effect)
on_events [] p = some (p, [])
on_events (ev ∷ evs) p = elim (on_event ev p) [
  | none ↦ none
  | some r ↦ elim (on_events evs r.0) [ none ↦ none | some q ↦ some (q.0, r.1 ++ q.1) ]
]

-- The message that the open IO test page streams.
abbrev pub stream : Panel → List Effect
stream p = elim p.nav [
  | io_test ↦ send (manual_io p.io_wrap_held p.io_knives_in_held p.io_knives_out_held) ∷ []
  | _ ↦ []
]

-- One frame, on the mode that the backend shows and the key events since the last frame.
unfoldable pub frame : Mode → List ButtonEvent → Panel → Option (Panel × List Effect)
frame m evs p = elim (on_events evs (record p { nav = next_nav p.nav m })) [
  | none ↦ none
  | some q ↦ some (q.0, q.1 ++ stream q.0)
]
