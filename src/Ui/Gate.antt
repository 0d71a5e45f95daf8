-- ===== src/Ui/Gate.antt =====
-- What the panel lets through: the PIN gate, the streaming of the IO test page and the PIN's bounds.
use claas_rollant.Prelude.{
  ◌≤◌, ◌≡◌, ◌≢◌, ◌⊎◌, ◌↔◌, refl, Bool, true, false, ◌||◌, List, [], ◌∷◌, ◌++◌, Option, none, some,
  arith,
}
use claas_rollant.Ipc.{Mode, reset_total, enter_ethernet, manual_io}
use claas_rollant.Ui.Nav.{
  Button, ButtonEvent, pressed, released, main, ethernet_screen, fault_screen, remap_fkey, Nav,
  service, io_test, next_nav,
}
use claas_rollant.Ui.Panel.{
  Pin, ServiceState, Effect, send, Panel, unlocked, press_main, press_service, press_ethernet,
  press_fault, event_on, on_event, on_events, frame, stream,
}

-- The commands that only the service menu may send.
abbrev pub is_guarded : Effect → Bool
is_guarded (send reset_total) = true
is_guarded (send enter_ethernet) = true
is_guarded _ = false

abbrev pub is_stream : Effect → Bool
is_stream (send (manual_io w i o)) = true
is_stream _ = false

abbrev pub any_of : (Effect → Bool) → List Effect → Bool
any_of f [] = false
any_of f (e ∷ es) = f e || any_of f es

guard_passed :
    (ev : ButtonEvent) (p q : Panel) (es : List Effect)
    → on_event ev p ≡ some (q, es)
    → (any_of is_guarded es ≡ true) ⊎ ((q.nav ≡ io_test) × (p.nav ≢ io_test))
    → (p.nav ≡ service) × (unlocked p.menu ≡ true)
unfolding on_event press_main press_service press_ethernet press_fault
guard_passed ev p q es e h = ground arith

-- The digits of the service PIN are 1, 2, 3 and 4.
abbrev pub IsRight : Pin → Type 0
IsRight p = (p.d0 ≡ 1) × (p.d1 ≡ 2) × (p.d2 ≡ 3) × (p.d3 ≡ 4)

unlocked-IsRight : (s : ServiceState) → unlocked s ≡ true → IsRight s.pin
unfolding unlocked
unlocked-IsRight s h = (ground (arith, h), ground (arith, h), ground (arith, h), ground (arith, h))

-- A key event resets the total, enters the Ethernet mode or opens the IO test page only on the service
-- screen and while the PIN entry shows 1, 2, 3, 4.
pub event_gate :
    (ev : ButtonEvent) (p q : Panel) (es : List Effect)
    → on_event ev p ≡ some (q, es)
    → (any_of is_guarded es ≡ true) ⊎ ((q.nav ≡ io_test) × (p.nav ≢ io_test))
    → (p.nav ≡ service) × IsRight p.menu.pin
event_gate ev p q es e h =
    let (screen, right) = guard_passed ev p q es e h in (screen, unlocked-IsRight p.menu right)

-- The PIN's digits are decimal and the cursor is on one of them.
pub record IsValid (s : ServiceState) : Type 0 where
  pub cursor_fits : s.cursor ≤ 3
  pub d0_fits : s.pin.d0 ≤ 9
  pub d1_fits : s.pin.d1 ≤ 9
  pub d2_fits : s.pin.d2 ≤ 9
  pub d3_fits : s.pin.d3 ≤ 9

-- A step that does not panic, keeps the bounds, and streams nothing.
abbrev pub IsFine : Option (Panel × List Effect) → Type 0
IsFine none = ⊥
IsFine (some r) = IsValid r.0.menu × (any_of is_stream r.1 ≡ false)

press_service-IsFine : (b : Button) (p : Panel) → IsValid p.menu → IsFine (press_service b p)
unfolding press_service
press_service-IsFine b p v = ground arith

event_on-IsFine :
    (n : Nav) (ev : ButtonEvent) (p : Panel) → IsValid p.menu → IsFine (event_on n ev p)
unfolding press_main press_ethernet press_fault
event_on-IsFine service (pressed b) p v = press_service-IsFine (remap_fkey b) p v
event_on-IsFine main ev p v = ground arith
event_on-IsFine ethernet_screen ev p v = ground arith
event_on-IsFine fault_screen ev p v = ground arith
event_on-IsFine io_test ev p v = ground arith
event_on-IsFine service (released b) p v = (v, refl)

pub on_event-IsFine : (ev : ButtonEvent) (p : Panel) → IsValid p.menu → IsFine (on_event ev p)
unfolding on_event
on_event-IsFine ev p v = event_on-IsFine p.nav ev p v

pub any_of-append :
    (f : Effect → Bool) (es fs : List Effect) → any_of f (es ++ fs) ≡ (any_of f es || any_of f fs)
any_of-append f [] fs = refl
any_of-append f (e ∷ es) fs = grind (arith, any_of-append f es fs)

-- The effects `es` before those of a step.
abbrev after : List Effect → Option (Panel × List Effect) → Option (Panel × List Effect)
after es o = elim o [ none ↦ none | some q ↦ some (q.0, es ++ q.1) ]

after-IsFine :
    (es : List Effect) (o : Option (Panel × List Effect))
    → any_of is_stream es ≡ false
    → IsFine o
    → IsFine (after es o)
after-IsFine es none e v = v
after-IsFine es (some q) e v = (v.0, grind (arith, any_of-append is_stream es q.1))

chain-IsFine :
    (o : Option (Panel × List Effect)) (k : Panel → Option (Panel × List Effect))
    → IsFine o
    → ((q : Panel) → IsValid q.menu → IsFine (k q))
    → IsFine
        (elim o as (λ _. Option (Panel × List Effect)) [ none ↦ none | some r ↦ after r.1 (k r.0) ])
chain-IsFine none k v rest = v
chain-IsFine (some r) k v rest = after-IsFine r.1 (k r.0) v.1 (rest r.0 v.0)

pub on_events-IsFine :
    (evs : List ButtonEvent) (p : Panel) → IsValid p.menu → IsFine (on_events evs p)
unfolding on_events
on_events-IsFine [] p v = (v, refl)
on_events-IsFine (ev ∷ evs) p v =
    chain-IsFine (on_event ev p) (on_events evs) (on_event-IsFine ev p v)
      (λ q w. on_events-IsFine evs q w)

-- What the open page streams, after the effects of the events.
stream_iff :
    (q : Panel) (es : List Effect)
    → any_of is_stream es ≡ false
    → (any_of is_stream (es ++ stream q) ≡ true) ↔ (q.nav ≡ io_test)
stream_iff q es e = grind (arith, any_of-append is_stream es (stream q))

frame_end :
    (o : Option (Panel × List Effect))
    → IsFine o
    → (q : Panel) × (es : List Effect) × (elim o as (λ _. Option (Panel × List Effect)) [
      | none ↦ none
      | some r ↦ some (r.0, r.1 ++ stream r.0)
    ]
        ≡ some (q, es))
      × IsValid q.menu
      × ((any_of is_stream es ≡ true) ↔ (q.nav ≡ io_test))
frame_end none v = absurd v
frame_end (some r) v = (r.0, r.1 ++ stream r.0, refl, v.0, stream_iff r.0 r.1 v.1)

-- From a valid PIN entry every frame ends without a panic, keeps the PIN's digits decimal and the
-- cursor on a digit, and sends a manual command just when it ends on the IO test page.
pub frame_total :
    (m : Mode) (evs : List ButtonEvent) (p : Panel)
    → IsValid p.menu
    → (q : Panel) × (es : List Effect) × (frame m evs p ≡ some (q, es))
      × IsValid q.menu
      × ((any_of is_stream es ≡ true) ↔ (q.nav ≡ io_test))
unfolding frame
frame_total m evs p v =
    frame_end (on_events evs (record p { nav = next_nav p.nav m }))
      (on_events-IsFine evs (record p { nav = next_nav p.nav m }) v)
