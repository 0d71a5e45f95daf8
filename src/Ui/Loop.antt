-- ===== src/Ui/Loop.antt =====
-- The main loop of the panel: `main` of src/baler-ui/src/main.rs, with the redraw test and the memory
-- of the beacon. The window holds what was last set on it; a write of an LED may fail, and is only asked for here.
pub mod Current
use native.Mathlib.Decide.{ℕ_discrete}
use claas_rollant.Prelude.{ℕ, Bool, true, false, List, [], ◌∷◌, Option, ◌≡◌, none, some}
use claas_rollant.Ipc.{Mode, StateSnapshot, KnifePos, Ipv4Addr}
use claas_rollant.Ui.Nav.{Nav, ButtonEvent}
use claas_rollant.Ui.Language.{Lang}
use claas_rollant.Ui.Panel.{Panel, Pin, Effect, frame}
use claas_rollant.Ui.Led.{Colours, beacon}
use claas_rollant.Ui.View.{View, push_view}

-- All that affects a drawn frame.
pub record ViewKey : Type 0 where
  pub nav : Nav
  pub snap : StateSnapshot
  pub pin : Pin
  pub cursor : ℕ
  pub ethernet_selected : Bool
  pub lang : Lang
  pub io_wrap_held : Bool
  pub io_knives_in_held : Bool
  pub io_knives_out_held : Bool

abbrev pub view_eq : Discrete (Option ViewKey)
view_eq = hlevel (ℕ_discrete)

abbrev pub colours_eq : Discrete (Option Colours)
colours_eq = hlevel (ℕ_discrete)

abbrev pub key_of : Panel → StateSnapshot → ViewKey
key_of p snap = record {
  nav = p.nav;
  snap = snap;
  pin = p.menu.pin;
  cursor = p.menu.cursor;
  ethernet_selected = p.menu.ethernet_selected;
  lang = p.lang;
  io_wrap_held = p.io_wrap_held;
  io_knives_in_held = p.io_knives_in_held;
  io_knives_out_held = p.io_knives_out_held;
}

-- The LEDs that the panel sets, by their names in cr1140-hal.
pub data Led : Type 0 where
  status_red status_green status_blue kbd_red kbd_green kbd_blue : Led

-- The beacon's memory of the colours it asked for last, whether the LEDs took them or not.
pub record LedBeacon : Type 0 where
  pub last : Option Colours

-- The writes for some colours, in their order.
abbrev pub led_writes : Colours → List (Led × ℕ)
led_writes c =
    (status_red, c.sr)
    ∷ (status_green, c.sg)
    ∷ (status_blue, c.sb)
    ∷ (kbd_red, c.kr)
    ∷ (kbd_green, c.kg)
    ∷ (kbd_blue, c.kb)
    ∷ []

-- Colours other than the last ones are remembered and written.
abbrev pub set_lights :
    (led : LedBeacon) (next : Colours) → Dec (led.last ≡ some next) → LedBeacon × List (Led × ℕ)
set_lights led next (yes e) = (led, [])
set_lights led next (no n) = (record { last = some next }, led_writes next)

-- `LedBeacon::tick`: the beacon after it, and the writes of LEDs that it makes.
unfoldable pub tick : ℕ → StateSnapshot → LedBeacon → LedBeacon × List (Led × ℕ)
tick t snap led = set_lights led (beacon t snap) (colours_eq led.last (some (beacon t snap)))

pub record Display : Type 0 where
  pub panel : Panel
  pub prev_view : Option ViewKey
  pub window : View
  pub led : LedBeacon

-- The window is set if the key is another than the last one.
abbrev pub set_window :
    (snap : StateSnapshot) (d : Display) → Dec (d.prev_view ≡ some (key_of d.panel snap)) → Display
set_window snap d (yes e) = d
set_window snap d (no n) = record d {
  prev_view = some (key_of d.panel snap);
  window = push_view d.panel snap;
}

unfoldable pub redraw : StateSnapshot → Display → Display
redraw snap d = set_window snap d (view_eq d.prev_view (some (key_of d.panel snap)))

-- The end of a round: the redraw, then the beacon.
abbrev finish :
    ℕ → StateSnapshot → Display → Option (Panel × List Effect) → Option (Display × List Effect)
finish t snap d none = none
finish t snap d (some (p, es)) =
    some (record (redraw snap (record d { panel = p })) { led = (tick t snap d.led).0 }, es)

-- One round of the loop, `t` milliseconds after the start; `none` stands for a panic.
unfoldable pub round :
    ℕ → StateSnapshot → List ButtonEvent → Display → Option (Display × List Effect)
round t snap evs d = finish t snap d (frame snap.mode evs d.panel)

-- The display before the loop.
abbrev pub start : Panel → StateSnapshot → Display
start p snap = record {
  panel = p;
  prev_view = none;
  window = push_view p snap;
  led = record { last = none };
}

-- The rounds of the loop: the time, the snapshot and the key events of each.
unfoldable pub rounds : List (ℕ × StateSnapshot × List ButtonEvent) → Display → Option Display
rounds [] d = some d
rounds ((t, snap, evs) ∷ rs) d = elim (round t snap evs d) [ none ↦ none | some r ↦ rounds rs r.0 ]
