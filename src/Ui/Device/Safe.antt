-- ===== src/Ui/Device/Safe.antt =====
-- The panel process never panics.
use claas_rollant.Prelude.{
  ℕ, zero, suc, ◌≡◌, ◌≢◌, List, [], ◌∷◌, Option, none, some, Result, ok, err, arith,
}
use claas_rollant.Prelude.Phases.{Errs, Errs-err, continue_with-Errs, from_err-Errs, continue_with}
use claas_rollant.Ipc.{StateSnapshot}
use claas_rollant.Counter.Files.{FileSystem}
use claas_rollant.Ui.Nav.{ButtonEvent}
use claas_rollant.Ui.Panel.{Panel, Effect, on_event}
use claas_rollant.Ui.Gate as Gate
use claas_rollant.Ui.Gate.{on_event-IsFine}
use claas_rollant.Ui.Loop.{redraw}
use claas_rollant.Ui.Device.{
  Backend, Hal, Session, UiError, Loop, handled, polled, poll_keys, shown_after, stepped,
  loop_round, main_loop, panicked, draw,
}
use claas_rollant.Ui.Device.Launch.{Outside, begun, looped, ui_main}

module _ (fs : FileSystem) (p q : fs.FilePath) (be : Backend) (hal : Hal) where
  abbrev S : Type 0
  S = Session fs p q be hal

  abbrev IsPinned : S → Type 0
  IsPinned s = Gate.IsValid s.display.panel.menu

  abbrev IsCalm : UiError fs p q be hal → Type 0
  IsCalm x = x ≢ panicked

  -- The PIN entry stays valid, or the process ends without a panic.
  abbrev IsSafe : Loop fs p q be hal → Type 0
  IsSafe none = Unit {0}
  IsSafe (some (s, ok u)) = IsPinned s
  IsSafe (some (s, err x)) = IsCalm x

  handled-IsSafe :
      (rest : S → Loop fs p q be hal) (s : S) (o : Option (Panel × List Effect))
      → Gate.IsFine o
      → ((s : S) → IsPinned s → IsSafe (rest s))
      → IsSafe (handled fs p q be hal rest s o)
  handled-IsSafe rest s none f h = absurd f
  handled-IsSafe rest s (some (panel, es)) f h = h _ f.0

  polled-IsSafe :
      (rest : S → Loop fs p q be hal) (s : S) (r : Result (Option ButtonEvent) hal.HalError)
      → IsPinned s
      → ((s : S) → IsPinned s → IsSafe (rest s))
      → IsSafe (polled fs p q be hal rest s r)
  polled-IsSafe rest s (err e) v h = ground arith
  polled-IsSafe rest s (ok none) v h = v
  polled-IsSafe rest s (ok (some ev)) v h =
      handled-IsSafe rest s (on_event ev s.display.panel) (on_event-IsFine ev s.display.panel v) h

  poll_keys-IsSafe : (fuel : ℕ) (s : S) → IsPinned s → IsSafe (poll_keys fs p q be hal fuel s)
  unfolding poll_keys
  poll_keys-IsSafe zero s v = tt
  poll_keys-IsSafe (suc fuel) s v =
      polled-IsSafe (poll_keys fs p q be hal fuel) _ _ v (poll_keys-IsSafe fuel)

  shown-IsSafe :
      (t : ℕ) (snap : StateSnapshot) (o : Loop fs p q be hal)
      → IsSafe o
      → IsSafe (shown_after fs p q be hal t snap o)
  unfolding draw redraw
  shown-IsSafe t snap none h = tt
  shown-IsSafe t snap (some (s, ok u)) h = ground (arith, h)
  shown-IsSafe t snap (some (s, err x)) h = h

  stepped-IsSafe :
      (fuel t : ℕ) (s : S) (o : Option (be.Handle × be.World × StateSnapshot))
      → IsPinned s
      → IsSafe (stepped fs p q be hal fuel t s o)
  stepped-IsSafe fuel t s none v = tt
  stepped-IsSafe fuel t s (some (handle, world, snap)) v =
      shown-IsSafe t snap _ (poll_keys-IsSafe fuel _ v)

  rounds-IsSafe :
      (rest : S → Loop fs p q be hal) (o : Loop fs p q be hal)
      → IsSafe o
      → ((s : S) → IsPinned s → IsSafe (rest s))
      → IsSafe (continue_with (λ u. rest) o)
  unfolding continue_with
  rounds-IsSafe rest none v h = tt
  rounds-IsSafe rest (some (s, ok u)) v h = h s v
  rounds-IsSafe rest (some (s, err x)) v h = v

  loop_round-IsSafe : (fuel t : ℕ) (s : S) → IsPinned s → IsSafe (loop_round fs p q be hal fuel t s)
  unfolding loop_round
  loop_round-IsSafe fuel t s v =
      stepped-IsSafe fuel t (record s { hardware = hal.update_timers_and_animations s.hardware })
        (be.step t s.outlets.handle s.outlets.world) v

  main_loop-IsSafe :
      (fuel : ℕ) (ts : List ℕ) (s : S) → IsPinned s → IsSafe (main_loop fs p q be hal fuel ts s)
  unfolding main_loop
  main_loop-IsSafe fuel [] s v = v
  main_loop-IsSafe fuel (t ∷ ts) s v =
      rounds-IsSafe (main_loop fs p q be hal fuel ts) (loop_round fs p q be hal fuel t s)
        (loop_round-IsSafe fuel t s v) (main_loop-IsSafe fuel ts)

  abbrev Ending : Type 0
  Ending = Option (Outside fs p q be hal × Result (Unit {0}) (UiError fs p q be hal))

  abbrev after_loop : Loop fs p q be hal → Ending
  after_loop o = elim o [
    | none ↦ none
    | some r ↦ some (
      record { hardware = r.0.hardware; world = r.0.outlets.world; disk = r.0.outlets.disk },
      r.1,
    )
  ]

  after_loop-Errs : (o : Loop fs p q be hal) → IsSafe o → Errs IsCalm (after_loop o)
  unfolding Errs
  after_loop-Errs none h = tt
  after_loop-Errs (some (s, ok u)) h = tt
  after_loop-Errs (some (s, err x)) h = h

  none-Errs : Errs {S = Outside fs p q be hal} {A = Unit {0}} IsCalm none
  unfolding Errs
  none-Errs = tt

  ok-Errs : {A : Type 0} → (o : Outside fs p q be hal) (a : A) → Errs IsCalm (some (o, ok a))
  unfolding Errs
  ok-Errs o a = tt

  looped-Errs :
      (fuel : ℕ) (ts : List ℕ) (t w h : ℕ) (o : Outside fs p q be hal)
      (first : Option (be.Handle × be.World × StateSnapshot))
      → Errs IsCalm (
          looped fs p q be hal
            (begun fs p q be hal t w h o first)
            (main_loop fs p q be hal fuel ts))
  looped-Errs fuel ts t w h o none = none-Errs
  looped-Errs fuel ts t w h o (some (handle, world, snap)) =
      after_loop-Errs _ (main_loop-IsSafe fuel ts _ (ground arith))

  -- Whatever the hardware layer, the toolkit and the backend do, and whatever keys are pressed: if the
  -- panel process ends with an error, it is one of the hardware layer, of the toolkit or of the
  -- backend's opening, and not a panic, in its start and in any rounds.
  pub ui_main_calm :
      (fuel t : ℕ) (ts : List ℕ) (o o' : Outside fs p q be hal) (x : UiError fs p q be hal)
      → ui_main fs p q be hal fuel t ts o ≡ some (o', err x)
      → x ≢ panicked
  unfolding ui_main
  ui_main_calm fuel t ts o o' x e =
      Errs-err IsCalm (ui_main fs p q be hal fuel t ts o) o' x
        (continue_with-Errs IsCalm _ _
          (λ size o1.
            continue_with-Errs IsCalm _ _
              (λ keypad o2.
                continue_with-Errs IsCalm _ _
                  (λ platform o3.
                    continue_with-Errs IsCalm _ _
                      (λ sized o4.
                        continue_with-Errs IsCalm _ _
                          (λ ui o5.
                            continue_with-Errs IsCalm _ _
                              (λ handle o6. looped-Errs fuel ts t size.0 size.1 o6 _)
                              (from_err-Errs IsCalm _ _ (λ y. ground arith)))
                          (from_err-Errs IsCalm _ _ (λ y. ground arith)))
                      (ok-Errs _ _))
                  (from_err-Errs IsCalm _ _ (λ y. ground arith)))
              (from_err-Errs IsCalm _ _ (λ y. ground arith)))
          (from_err-Errs IsCalm _ _ (λ y. ground arith)))
        e
