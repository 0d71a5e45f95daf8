-- ===== src/Ui/Loop/Current.antt =====
-- What the operator sees is current, in spite of the redraws that are left out, and what is written to the
-- LEDs, in spite of the writes that are left out.
use claas_rollant.Prelude.{
  ℕ, ◌≡◌, ◌≢◌, refl, sym, ◌∙◌, ap, subst, List, [], ◌∷◌, Option, none, some,
}
use claas_rollant.Ipc.{StateSnapshot}
use claas_rollant.Ui.Nav.{ButtonEvent}
use claas_rollant.Ui.Panel.{Panel, Effect}
use claas_rollant.Ui.Gate as Gate
use claas_rollant.Ui.Gate.{frame_total}
use claas_rollant.Ui.Led.{Colours, beacon}
use claas_rollant.Ui.View.{View, push_view}
use claas_rollant.Ui.Loop.{
  ViewKey, key_of, LedBeacon, tick, Display, redraw, set_window, set_lights, led_writes, view_eq,
  colours_eq, round, rounds, start,
}

-- What a key stands for.
abbrev view_of : ViewKey → View
view_of k =
    push_view
      (record {
        nav = k.nav;
        menu = record { pin = k.pin; cursor = k.cursor; ethernet_selected = k.ethernet_selected };
        lang = k.lang;
        io_wrap_held = k.io_wrap_held;
        io_knives_in_held = k.io_knives_in_held;
        io_knives_out_held = k.io_knives_out_held;
      })
      k.snap

abbrev pub IsRemembered : Option ViewKey → View → Type 0
IsRemembered none v = Unit
IsRemembered (some k) v = v ≡ view_of k

-- The memory tells what is on the window.
pub record IsTrue (d : Display) : Type 0 where
  pub menu_valid : Gate.IsValid d.panel.menu
  pub window_known : IsRemembered d.prev_view d.window

set_window_current :
    (snap : StateSnapshot) (d : Display) (eq : Dec (d.prev_view ≡ some (key_of d.panel snap)))
    → IsRemembered d.prev_view d.window
    → (IsRemembered (set_window snap d eq).prev_view (set_window snap d eq).window)
      × ((set_window snap d eq).window ≡ push_view d.panel snap)
      × ((set_window snap d eq).panel ≡ d.panel)
      × ((set_window snap d eq).led ≡ d.led)
set_window_current snap d (yes e) h = (h, subst (λ o. IsRemembered o d.window) e h, refl, refl)
set_window_current snap d (no n) h = (refl, refl, refl, refl)

set_lights_lem :
    (led : LedBeacon) (next : Colours) (eq : Dec (led.last ≡ some next))
    → ((set_lights led next eq).0.last ≡ some next)
      × (led.last ≡ some next → (set_lights led next eq).1 ≡ [])
      × (led.last ≢ some next → (set_lights led next eq).1 ≡ led_writes next)
set_lights_lem led next (yes e) = (e, λ h. refl, λ h. absurd (h e))
set_lights_lem led next (no n) = (refl, λ h. absurd (n h), λ h. refl)

-- The beacon remembers the colours of its time and snapshot; it writes all six LEDs if they are others
-- than the ones it remembered, and none if not.
pub tick_lem :
    (t : ℕ) (snap : StateSnapshot) (led : LedBeacon)
    → let next = beacon t snap in
      let (led', writes) = tick t snap led in
      (led'.last ≡ some next)
      × (led.last ≡ some next → writes ≡ [])
      × (led.last ≢ some next → writes ≡ led_writes next)
unfolding tick
tick_lem t snap led = set_lights_lem led _ (colours_eq led.last (some (beacon t snap)))

-- A display that shows what the panel and the snapshot say, at the time `t`, and whose beacon has asked
-- for their colours last; the LEDs may have refused them.
pub record IsCurrent (t : ℕ) (snap : StateSnapshot) (d : Display) : Type 0 where
  pub faithful : IsTrue d
  pub window_current : d.window ≡ push_view d.panel snap
  pub colours_asked : d.led.last ≡ some (beacon t snap)

pub round-IsCurrent :
    (t : ℕ) (snap : StateSnapshot) (evs : List ButtonEvent) (d : Display)
    → IsTrue d
    → (d' : Display) × (es : List Effect) × (round t snap evs d ≡ some (d', es))
      × IsCurrent t snap d'
unfolding round redraw
round-IsCurrent t snap evs d h =
    let (q, es, run, valid, streams) = frame_total snap.mode evs d.panel h.menu_valid in
    let e : Display = record d { panel = q } in
    let w =
      set_window_current snap e (view_eq e.prev_view (some (key_of e.panel snap))) h.window_known in
    let f : Display = redraw snap e in
    let same : f.panel ≡ q = w.2 in
    (
      record f { led = (tick t snap d.led).0 },
      es,
      rw run refl,
      record {
        faithful = record {
          menu_valid = subst (λ p. Gate.IsValid p.menu) (sym same) valid;
          window_known = w.0;
        };
        window_current = w.1 ∙ ap (λ p. push_view p snap) (sym same);
        colours_asked = (tick_lem t snap d.led).0;
      },
    )

rounds_next :
    (t : ℕ) (snap : StateSnapshot) (evs : List ButtonEvent)
    (rs : List (ℕ × StateSnapshot × List ButtonEvent)) (d d' : Display) (es : List Effect)
    → round t snap evs d ≡ some (d', es)
    → rounds ((t, snap, evs) ∷ rs) d ≡ rounds rs d'
unfolding rounds
rounds_next t snap evs rs d d' es e = rw (e, rounds) refl

-- What the last of some rounds leaves: it is current for that round, or there was no round.
abbrev pub EndsCurrent : List (ℕ × StateSnapshot × List ButtonEvent) → Display → Type 0
EndsCurrent [] d = IsTrue d
EndsCurrent ((t, snap, evs) ∷ []) d = IsCurrent t snap d
EndsCurrent (r ∷ s ∷ rs) d = EndsCurrent (s ∷ rs) d

rounds_end :
    (rs : List (ℕ × StateSnapshot × List ButtonEvent)) (d : Display)
    → IsTrue d
    → (d' : Display) × (rounds rs d ≡ some d') × EndsCurrent rs d'
unfolding rounds
rounds_end [] d h = (d, refl, h)
rounds_end ((t, snap, evs) ∷ []) d h =
    let (d', es, e, c) = round-IsCurrent t snap evs d h in
    (d', rounds_next t snap evs [] d d' es e, c)
rounds_end ((t, snap, evs) ∷ r ∷ rs) d h =
    let (d', es, e, c) = round-IsCurrent t snap evs d h in
    let (d'', e', c') = rounds_end (r ∷ rs) d' c.faithful in
    (d'', rounds_next t snap evs (r ∷ rs) d d' es e ∙ e', c')

-- From a panel with a valid PIN entry the loop runs any rounds without a panic, and after each of them
-- the window shows the panel and the snapshot of that round in full, and the LEDs were asked for the
-- colours of its time and snapshot, although redraws and writes that repeat the last ones are left out.
pub rounds_current :
    (rs : List (ℕ × StateSnapshot × List ButtonEvent)) (p : Panel) (snap : StateSnapshot)
    → Gate.IsValid p.menu
    → (d : Display) × (rounds rs (start p snap) ≡ some d) × EndsCurrent rs d
rounds_current rs p snap h =
    rounds_end rs (start p snap) (record { menu_valid = h; window_known = tt })
