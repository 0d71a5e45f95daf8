-- ===== src/Ui/Device/Rounds.antt =====
-- The rounds of the panel's loop, against the rounds on lists of events.
use claas_rollant.Prelude.{
  ℕ, ◌-◌, ◌<◌, ◌≡◌, ◌≢◌, sym, ap, ◌∙◌, subst, false, List, ◌++◌, Option, none, some, Result, ok,
  err, arith, length, Option-cases, inl, inr,
}
use claas_rollant.Ipc.{StateSnapshot}
use claas_rollant.Counter.Files.{FileSystem}
use claas_rollant.Ui.Nav.{ButtonEvent, next_nav}
use claas_rollant.Ui.Panel.{Panel, Effect, on_events, frame, stream}
use claas_rollant.Ui.Gate as Gate
use claas_rollant.Ui.Gate.{frame_total}
use claas_rollant.Ui.Led.{Colours, beacon}
use claas_rollant.Ui.Loop.{
  Led, status_red, status_green, status_blue, kbd_red, kbd_green, kbd_blue, LedBeacon, Display,
  redraw, tick, round,
}
use claas_rollant.Ui.Loop.Current.{IsTrue, IsCurrent, round-IsCurrent, tick_lem}
use claas_rollant.Ui.Device.{
  Backend, Hal, Outlets, Session, perform_all, polled, poll_keys, shown_after, follow, stepped,
  loop_round, hal_failed, draw, write_leds,
}
use claas_rollant.Ui.Device.Keys.{perform_all-append, Gives, after, poll_keys-events, poll_last}

module _ (fs : FileSystem) (p q : fs.FilePath) (be : Backend) (hal : Hal) where
  abbrev S : Type 0
  S = Session fs p q be hal

  abbrev all : List Effect → Outlets fs p q be hal → Outlets fs p q be hal
  all = perform_all fs p q be hal

  -- The session as the keys of a round find it.
  abbrev pub polling : S → be.Handle → be.World → StateSnapshot → S
  polling s handle world snap = follow fs p q be hal snap (record s {
    hardware = hal.update_timers_and_animations s.hardware;
    outlets = record (s.outlets) { handle = handle; world = world };
  })

  -- A round whose keypad gives some events and then `r`, up to what it does with `r`.
  round_events :
      (fuel t : ℕ) (s : S) (handle : be.Handle) (world : be.World) (snap : StateSnapshot)
      (evs : List ButtonEvent) (k h : hal.State) (r : Result (Option ButtonEvent) hal.HalError)
      (last : Panel) (es : List Effect)
      → be.step t s.outlets.handle s.outlets.world ≡ some (handle, world, snap)
      → Gives fs p q be hal (hal.update_timers_and_animations s.hardware) evs k
      → hal.poll_button k ≡ (h, r)
      → length evs < fuel
      → let s0 = polling s handle world snap in
        on_events evs s0.display.panel ≡ some (last, es)
        → (rest : ℕ) × (loop_round fs p q be hal fuel t s
            ≡ shown_after fs p q be hal t snap (
                polled fs p q be hal
                  (poll_keys fs p q be hal rest)
                  (after fs p q be hal s0 h last es)
                  r))
  unfolding loop_round
  round_events fuel t s handle world snap evs k h r last es e g e' l f =
      let s0 = polling s handle world snap in
      let (rest, run) = poll_keys-events fs p q be hal evs fuel s0 k last es g f l in
      (
        rest,
        ap
              (stepped fs p q be hal fuel t
                (record s { hardware = hal.update_timers_and_animations s.hardware }))
              e
            ∙ ap (shown_after fs p q be hal t snap)
                (run ∙ poll_last fs p q be hal rest (after fs p q be hal s0 k last es) h r e'),
      )

  frame_events :
      (snap : StateSnapshot) (evs : List ButtonEvent) (d d' : Display) (t : ℕ) (es : List Effect)
      → round t snap evs d ≡ some (d', es)
      → (last : Panel) × (now : List Effect) × (on_events evs
            (record (d.panel) { nav = next_nav d.panel.nav snap.mode })
          ≡ some (last, now))
        × (es ≡ now ++ stream last)
        × (d' ≡ record (redraw snap (record d { panel = last })) { led = (tick t snap d.led).0 })
  unfolding round frame
  frame_events snap evs d d' t es h =
      let start = record (d.panel) { nav = next_nav d.panel.nav snap.mode } in
      elim (Option-cases (on_events evs start)) [
        | inl e ↦ absurd (ground (arith, e, h))
        | inr ((last, now), e) ↦ (last, now, e, ground (arith, e, h), ground (arith, e, h))
      ]

  -- The hardware after the six LEDs were set, in this order, whatever they answered.
  abbrev pub six_set : Colours → hal.State → hal.State
  six_set c h =
      let h1 = (hal.set_led_typed status_red c.sr h).0 in
      let h2 = (hal.set_led_typed status_green c.sg h1).0 in
      let h3 = (hal.set_led_typed status_blue c.sb h2).0 in
      let h4 = (hal.set_led_typed kbd_red c.kr h3).0 in
      let h5 = (hal.set_led_typed kbd_green c.kg h4).0 in (hal.set_led_typed kbd_blue c.kb h5).0

  -- What the beacon does to the LEDs in a round.
  lit_lem :
      (t : ℕ) (snap : StateSnapshot) (led : LedBeacon) (h : hal.State)
      → let lit = write_leds fs p q be hal (tick t snap led).1 h in
        let next = beacon t snap in
        (led.last ≡ some next → lit ≡ h) × (led.last ≢ some next → lit ≡ six_set next h)
  lit_lem t snap led h =
      let (remembered, same, new) = tick_lem t snap led in
      let write : List (Led × ℕ) → hal.State = λ ws. write_leds fs p q be hal ws h in
      (λ e. ap write (same e), λ n. ap write (new n))

  -- The loop handles each key as it is read, with its effects at once; the round on a list of events
  -- computes the panel first. If the display is true, the backend steps, and the keypad gives fewer
  -- events than the fuel and then none, they agree: the round ends, the display is the one of the list
  -- model, its window current and the beacon's colours asked for, the backend and the language file have
  -- had the effects of that model in order, and before the drawing all six LEDs were set, each of which may
  -- have refused, if the colours are others than the remembered ones, and none if not.
  pub loop_round-round :
      (fuel t : ℕ) (s : S) (handle : be.Handle) (world : be.World) (snap : StateSnapshot)
      (evs : List ButtonEvent) (k h : hal.State)
      → IsTrue s.display
      → be.step t s.outlets.handle s.outlets.world ≡ some (handle, world, snap)
      → Gives fs p q be hal (hal.update_timers_and_animations s.hardware) evs k
      → hal.poll_button k ≡ (h, ok none)
      → length evs < fuel
      → (d : Display) × (es : List Effect) × (lit : hal.State) × (round
            (t - s.led_start)
            snap
            evs
            s.display
          ≡ some (d, es))
        × (loop_round fs p q be hal fuel t s
            ≡ some (
              draw fs p q be hal (record s {
                hardware = lit;
                display = d;
                outlets = all es (record (s.outlets) { handle = handle; world = world });
              }),
              ok tt,
            ))
        × IsCurrent (t - s.led_start) snap d
        × (let next = beacon (t - s.led_start) snap in
            (s.display.led.last ≡ some next → lit ≡ h)
            × (s.display.led.last ≢ some next → lit ≡ six_set next h))
  loop_round-round fuel t s handle world snap evs k h v e g e' l =
      let (d, es, run, current) = round-IsCurrent (t - s.led_start) snap evs s.display v in
      let (last, now, f, es_eq, d_eq) =
        frame_events snap evs s.display d (t - s.led_start) es run in
      let (rest, ran) =
        round_events fuel t s handle world snap evs k h (ok none) last now e g e' l f in
      let o : Outlets fs p q be hal = record (s.outlets) { handle = handle; world = world } in
      let lit = write_leds fs p q be hal (tick (t - s.led_start) snap s.display.led).1 h in
      let drawn : Display → Outlets fs p q be hal → S =
        λ d o. draw fs p q be hal (record s { hardware = lit; display = d; outlets = o }) in
      (
        d,
        es,
        lit,
        run,
        ran
            ∙ ap (λ (x : Display). some (drawn x (all (stream last) (all now o)), ok tt)) (sym d_eq)
            ∙ ap (λ x. some (drawn d x, ok tt))
                (sym (perform_all-append fs p q be hal now (stream last) o)
                  ∙ ap (λ x. all x o) (sym es_eq)),
        current,
        lit_lem (t - s.led_start) snap s.display.led h,
      )

  -- An error of the keypad ends the process in the middle of a round, if the display is true, the backend
  -- steps, and the events before the error are fewer than the fuel: the panel and the effects on backend
  -- and language file are the ones of the keys read before it, none of the effects is a manual command,
  -- the window stays as it was, and nothing is written to the LEDs or drawn.
  pub loop_round-error :
      (fuel t : ℕ) (s : S) (handle : be.Handle) (world : be.World) (snap : StateSnapshot)
      (evs : List ButtonEvent) (k h : hal.State) (x : hal.HalError)
      → IsTrue s.display
      → be.step t s.outlets.handle s.outlets.world ≡ some (handle, world, snap)
      → Gives fs p q be hal (hal.update_timers_and_animations s.hardware) evs k
      → hal.poll_button k ≡ (h, err x)
      → length evs < fuel
      → (last : Panel) × (es : List Effect) × (loop_round fs p q be hal fuel t s
          ≡ some (after fs p q be hal (polling s handle world snap) h last es, err (hal_failed x)))
        × (on_events evs (polling s handle world snap).display.panel ≡ some (last, es))
        × (Gate.any_of Gate.is_stream es ≡ false)
  loop_round-error fuel t s handle world snap evs k h x v e g e' l =
      let (d, es, run, current) = round-IsCurrent (t - s.led_start) snap evs s.display v in
      let (last, now, f, es_eq, d_eq) =
        frame_events snap evs s.display d (t - s.led_start) es run in
      let (rest, ran) =
        round_events fuel t s handle world snap evs k h (err x) last now e g e' l f in
      let fine = subst Gate.IsFine f (Gate.on_events-IsFine evs _ v.menu_valid) in
      (last, now, ran, f, fine.1)
