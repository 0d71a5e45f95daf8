-- ===== src/Ui/Device/Ends.antt =====
-- The panel process makes progress: with enough fuel, its start and its rounds come to a result.
use claas_rollant.Prelude.{
  ℕ, zero, suc, ◌<◌, ◌≡◌, ◌≢◌, refl, ap, sym, ◌∙◌, true, List, [], ◌∷◌, Option, none, some, Result,
  ok, err, arith, is_some, Option-cases, inl, inr, subst,
}
use claas_rollant.Prelude.Phases.{continue_with-is_some, from_err-is_some, placed-is_some}
use claas_rollant.Ipc.{StateSnapshot}
use claas_rollant.Counter.Files.{FileSystem}
use claas_rollant.Ui.Nav.{ButtonEvent}
use claas_rollant.Ui.Panel.{Panel, Effect}
use claas_rollant.Ui.Device.{
  Backend, Hal, Session, UiError, Loop, handled, polled, poll_keys, shown_after, stepped,
  loop_round, main_loop, panicked,
}
use claas_rollant.Ui.Device.Launch.{Outside, begun, looped, ui_main}
use claas_rollant.Ui.Device.Safe.{ui_main_calm}

module _ (fs : FileSystem) (p q : fs.FilePath) (be : Backend) (hal : Hal) (fuel : ℕ)
    (pending : hal.State → ℕ)
    (read : (h h' : hal.State) (ev : ButtonEvent)
      → hal.poll_button h ≡ (h', ok (some ev))
      → pending h' < pending h)
    (bounded : (h : hal.State) → pending h < fuel)
    (steps : (t : ℕ) (b : be.Handle) (w : be.World) → is_some (be.step t b w) ≡ true)
    (makes : (t : ℕ) (w : be.World) → is_some (be.make_backend t w) ≡ true) where
  abbrev S : Type 0
  S = Session fs p q be hal

  handled-is_some :
      (rest : S → Loop fs p q be hal) (s : S) (o : Option (Panel × List Effect))
      → ((s' : S) → s'.hardware ≡ s.hardware → is_some (rest s') ≡ true)
      → is_some (handled fs p q be hal rest s o) ≡ true
  handled-is_some rest s none h = refl
  handled-is_some rest s (some (panel, es)) h = h _ refl

  polled-is_some :
      (rest : S → Loop fs p q be hal) (s : S) (r : Result (Option ButtonEvent) hal.HalError)
      → ((ev : ButtonEvent)
          → r ≡ ok (some ev)
          → (s' : S) → s'.hardware ≡ s.hardware
          → is_some (rest s') ≡ true)
      → is_some (polled fs p q be hal rest s r) ≡ true
  polled-is_some rest s (err e) h = refl
  polled-is_some rest s (ok none) h = refl
  polled-is_some rest s (ok (some ev)) h = handled-is_some rest s _ (h ev refl)

  poll_keys-is_some :
      (n : ℕ) (s : S) → pending s.hardware < n → is_some (poll_keys fs p q be hal n s) ≡ true
  unfolding poll_keys
  poll_keys-is_some zero s l = absurd (omega arith)
  poll_keys-is_some (suc n) s l =
      let r = hal.poll_button s.hardware in
      polled-is_some (poll_keys fs p q be hal n) (record s { hardware = r.0 }) r.1
        (λ ev e s' same.
          let fewer = read s.hardware r.0 ev (ap (λ x. (r.0, x)) e) in
          poll_keys-is_some n s' (subst (λ h. pending h < n) (sym same) (omega arith)))

  shown-is_some :
      (t : ℕ) (snap : StateSnapshot) (o : Loop fs p q be hal)
      → is_some o ≡ true
      → is_some (shown_after fs p q be hal t snap o) ≡ true
  shown-is_some t snap none h = h
  shown-is_some t snap (some (s, ok u)) h = refl
  shown-is_some t snap (some (s, err x)) h = refl

  stepped-is_some :
      (t : ℕ) (s : S) (o : Option (be.Handle × be.World × StateSnapshot))
      → is_some o ≡ true
      → is_some (stepped fs p q be hal fuel t s o) ≡ true
  stepped-is_some t s none h = h
  stepped-is_some t s (some (b, w, snap)) h =
      shown-is_some t snap _ (poll_keys-is_some fuel _ (bounded s.hardware))

  main_loop-is_some : (ts : List ℕ) (s : S) → is_some (main_loop fs p q be hal fuel ts s) ≡ true
  unfolding main_loop loop_round
  main_loop-is_some [] s = refl
  main_loop-is_some (t ∷ ts) s =
      continue_with-is_some _ _
        (stepped-is_some t (record s { hardware = hal.update_timers_and_animations s.hardware }) _
          (steps t s.outlets.handle s.outlets.world))
        (λ u s'. main_loop-is_some ts s')

  after-is_some :
      (o : Loop fs p q be hal)
      → is_some o ≡ true
      → is_some
          (elim o
            as (λ _. Option (Outside fs p q be hal × Result (Unit {0}) (UiError fs p q be hal))) [
              | none ↦ none
              | some r ↦ some (
                record {
                  hardware = r.0.hardware;
                  world = r.0.outlets.world;
                  disk = r.0.outlets.disk;
                },
                r.1,
              )
            ])
        ≡ true
  after-is_some none h = h
  after-is_some (some r) h = refl

  looped-is_some :
      (ts : List ℕ) (t w h : ℕ) (o : Outside fs p q be hal)
      (first : Option (be.Handle × be.World × StateSnapshot))
      → is_some first ≡ true
      → is_some (
          looped fs p q be hal
            (begun fs p q be hal t w h o first)
            (main_loop fs p q be hal fuel ts))
        ≡ true
  looped-is_some ts t w h o none e = e
  looped-is_some ts t w h o (some (b, world, snap)) e = after-is_some _ (main_loop-is_some ts _)

  total :
      (t : ℕ) (ts : List ℕ) (o : Outside fs p q be hal)
      → is_some (ui_main fs p q be hal fuel t ts o) ≡ true
  unfolding ui_main
  total t ts o =
      continue_with-is_some _ _ (from_err-is_some _ _ (placed-is_some _ _ _ refl)) (λ size o1.
        continue_with-is_some _ _ (from_err-is_some _ _ (placed-is_some _ _ _ refl)) (λ keypad o2.
          continue_with-is_some _ _ (from_err-is_some _ _ (placed-is_some _ _ _ refl))
            (λ platform o3. continue_with-is_some _ _ refl (λ sized o4.
              continue_with-is_some _ _ (from_err-is_some _ _ (placed-is_some _ _ _ refl)) (λ ui o5.
                continue_with-is_some _ _
                  (from_err-is_some _ _ (placed-is_some _ _ _ (makes t o5.world)))
                  (λ b o6. looped-is_some ts t size.0 size.1 o6 _ (steps t b o6.world)))))))

  calm_result :
      (r : Result (Unit {0}) (UiError fs p q be hal))
      → ((x : UiError fs p q be hal) → r ≡ err x → x ≢ panicked)
      → r ≢ err panicked
  calm_result r h e = h panicked e refl

  -- If each key read leaves fewer pending, the keypad never holds as many as the fuel, and the backend
  -- can be made and stepped: whatever the hardware layer and the toolkit answer, and whatever keys are
  -- pressed, the panel's start and any number of rounds come to a result, and it is no panic.
  pub ui_main_ends :
      (t : ℕ) (ts : List ℕ) (o : Outside fs p q be hal)
      → (o' : Outside fs p q be hal) × (r : Result (Unit {0}) (UiError fs p q be hal)) × (ui_main fs
            p q be hal fuel t ts o
          ≡ some (o', r))
        × (r ≢ err panicked)
  ui_main_ends t ts o = elim (Option-cases (ui_main fs p q be hal fuel t ts o)) [
    | inl e ↦ absurd (ground (arith, e, total t ts o))
    | inr (r, e) ↦ (
      r.0,
      r.1,
      e,
      calm_result r.1
          (λ x f. ui_main_calm fs p q be hal fuel t ts o r.0 x (e ∙ ap (λ y. some (r.0, y)) f)),
    )
  ]
