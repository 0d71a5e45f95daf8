-- ===== src/Rig/Shown/Wrap.antt =====
-- From the softkey to the output: a wrap that the operator asks for is driven.
use claas_rollant.Prelude.{
  ℕ, ◌<◌, ◌≡◌, ◌≢◌, refl, sym, ap, subst, ◌∙◌, Bool, true, false, List, [], ◌∷◌, ◌++◌, Option, none,
  some, arith, length,
}
use claas_rollant.Ipc.{StateSnapshot, wrap, operational, ethernet}
use claas_rollant.Counter.Files.{FileSystem}
use claas_rollant.Ports.{Inputs, NetworkController, BusController}
use claas_rollant.Control.{Control, World, step}
use claas_rollant.Control.Invariant.{IsValid, step-IsValid}
use claas_rollant.Control.History.{History, run}
use claas_rollant.Control.Manual.{NoManual}
use claas_rollant.Control.Pulses.{wrap_starts, out_wrap, wrap_pulse_active, AllHealthy}
use claas_rollant.Control.Latch.{NoWrap}
use claas_rollant.Ui.Nav.{Button, ButtonEvent, main, f1, pressed, remap_fkey, next_nav}
use claas_rollant.Ui.Gate as Gate
use claas_rollant.Ui.Loop.Current.{round-IsCurrent}
use claas_rollant.Transport.Recovery.{newest}
use claas_rollant.Ui.Panel.{Panel, Effect, send, frame, on_events, on_event, press_main}
use claas_rollant.Ui.Loop.{Display, round}
use claas_rollant.Rig.{sent, deliver}
use claas_rollant.Rig.Shown.{
  Site, drawn, shown, rounded, Becomes, opening, channel, Happens, scans, draws, begins, goes,
}
use claas_rollant.Rig.Shown.Loss.{head_same}
use claas_rollant.Rig.Shown.Fresh.{
  IsKept, Becomes-IsKept, opening-IsKept, drain-channel, onto-newest,
}

-- The wrap softkey on the main screen.
key_frame :
    (b : Button) (p : Panel)
    → remap_fkey b ≡ f1
    → p.nav ≡ main
    → frame operational (pressed b ∷ []) p ≡ some (p, send wrap ∷ [])
unfolding frame on_events on_event press_main next_nav
key_frame b p h n = ground (arith, h, n)

round_effects :
    (t : ℕ) (snap : StateSnapshot) (evs : List ButtonEvent) (d d' : Display) (p : Panel)
    (es es' : List Effect)
    → frame snap.mode evs d.panel ≡ some (p, es)
    → round t snap evs d ≡ some (d', es')
    → es' ≡ es
unfolding round
round_effects t snap evs d d' p es es' f e = ground (arith, f, e)

module _ (fs : FileSystem) (net : NetworkController) (bus : BusController) where
  abbrev S : Type 0
  S = Site fs net bus

  key_drawn :
      (t : ℕ) (b : Button) (s : S)
      → IsKept fs net bus s
      → (newest channel s.last s.states).mode ≡ operational
      → remap_fkey b ≡ f1
      → s.display.panel.nav ≡ main
      → s.queue ≡ []
      → (s' : S) × (drawn fs net bus t (pressed b ∷ []) (true ∷ []) s ≡ some s')
        × (s'.queue ≡ wrap ∷ [])
        × (s'.world ≡ s.world)
        × (s'.control ≡ s.control)
  key_drawn t b s k m r n q =
      let snap = newest channel s.last s.states in
      let (d, es, run, current) = round-IsCurrent t snap (pressed b ∷ []) s.display k.faithful in
      let asked : es ≡ send wrap ∷ [] =
        round_effects t snap (pressed b ∷ []) s.display d s.display.panel (send wrap ∷ []) es
          (rw m (key_frame b s.display.panel r n)) run in
      (
        record s {
          display = d;
          last = snap;
          states = [];
          queue = s.queue ++ deliver (true ∷ []) (sent es);
        },
        ap (rounded fs net bus t (pressed b ∷ []) (true ∷ []) s) (drain-channel s.states s.last)
            ∙ ap (shown fs net bus (true ∷ []) s ([], snap)) run,
        rw (q, asked) refl,
        refl,
        refl,
      )

  shown-control :
      (luck : List Bool) (s s' : S) (r : List StateSnapshot × StateSnapshot)
      (o : Option (Display × List Effect))
      → shown fs net bus luck s r o ≡ some s'
      → s'.control ≡ s.control
  shown-control luck s s' r none e = ground (arith, e)
  shown-control luck s s' (rest, snap) (some (d, es)) e = ground (arith, e)

  rounded-control :
      (t : ℕ) (evs : List ButtonEvent) (luck : List Bool) (s s' : S)
      (o : Option (List StateSnapshot × StateSnapshot))
      → rounded fs net bus t evs luck s o ≡ some s'
      → s'.control ≡ s.control
  rounded-control t evs luck s s' none e = ground (arith, e)
  rounded-control t evs luck s s' (some r) e = shown-control luck s s' r _ e

  Happens-IsValid :
      {s s' : S} → Happens fs net bus s s' → IsValid fs s.control → IsValid fs s'.control
  Happens-IsValid (scans s i true) v = step-IsValid fs net bus s.world s.control i s.queue v
  Happens-IsValid (scans s i false) v = step-IsValid fs net bus s.world s.control i s.queue v
  Happens-IsValid (draws s s' t evs luck e) v =
      subst (IsValid fs) (sym (rounded-control t evs luck s s' _ e)) v

  Becomes-IsValid :
      {s0 s : S} → Becomes fs net bus s0 s → IsValid fs s0.control → IsValid fs s.control
  Becomes-IsValid begins v = v
  Becomes-IsValid (goes b h) v = Happens-IsValid h (Becomes-IsValid b v)

  -- From the start of both processes, with a valid PIN entry and a valid control state, in any
  -- interleaving and with any losses so far: if the newest
  -- snapshot is operational, nothing is queued, and the panel is on its main screen, then the key under
  -- the wrap label, if its command gets through, makes the daemon's next cycle drive the wrap output, on
  -- a healthy bus outside Ethernet and manual-IO mode with no wrap in flight; and the wrap pulse stays on
  -- through fewer than 499 further healthy cycles without another wrap or a `ManualIo`.
  pub key_wraps :
      (p : Panel) (w : World fs net bus) (c : Control fs) (s : S) (top : StateSnapshot)
      (rest : List StateSnapshot) (t : ℕ) (b : Button) (i : Inputs) (h : History)
      → Gate.IsValid p.menu
      → IsValid fs c
      → Becomes fs net bus (opening fs net bus p w c) s
      → s.published ≡ top ∷ rest
      → top.mode ≡ operational
      → s.display.panel.nav ≡ main
      → s.queue ≡ []
      → remap_fkey b ≡ f1
      → i.healthy ≡ true
      → s.control.state.mode ≢ ethernet
      → s.control.manual_io_remaining ≡ 0
      → s.control.wrap.active ≡ false
      → NoWrap h
      → NoManual h
      → AllHealthy fs net bus h
      → length h < 499
      → (s' : S) × (drawn fs net bus t (pressed b ∷ []) (true ∷ []) s ≡ some s')
        × (let (w', c', out, snap) = step fs net bus s'.world s'.control i s'.queue in
            (out.wrap ≡ true)
            × ((run fs net bus (record { world = w'; control = c' }) h).control.wrap.active ≡ true))
  unfolding run
  key_wraps p w c s top rest t b i h pin v from e m n q r ok_bus mode off idle nw nm ah l =
      let k = Becomes-IsKept fs net bus from (opening-IsKept fs net bus p w c pin) in
      let (older, onto_eq) = onto-newest s.states s.last k.older in
      let same : newest channel s.last s.states ≡ top =
        head_same _ top older rest (sym (k.in_order ∙ onto_eq) ∙ e) in
      let (s', run_eq, queue, world, control) =
        key_drawn t b s k (ap (λ x. x.mode) same ∙ m) r n q in
      let valid = Becomes-IsValid from v in
      let now =
        wrap_pulse_active fs net bus s.world s.control i [] valid ok_bus mode off idle tt tt tt in
      let later =
        wrap_pulse_active fs net bus s.world s.control i h valid ok_bus mode off idle nw nm ah in
      (
        s',
        run_eq,
        rw (queue, world, control)
            (
              out_wrap fs net bus s.world s.control i (wrap ∷ [])
                    (wrap_starts fs net bus s.world s.control i ok_bus mode off).1
                  ∙ now.0 (omega arith),
              later.0 l,
            ),
      )
