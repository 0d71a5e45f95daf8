-- ===== src/Ui/Device/Keys.antt =====
-- The keys of a round, read one by one: what they do is what the model on lists of events says.
use claas_rollant.Prelude.{
  ℕ, zero, suc, ◌<◌, ◌≡◌, refl, sym, ap, ◌∙◌, List, [], ◌∷◌, ◌++◌, Option, some, Result, ok, arith,
  length, Option-cases, inl, inr,
}
use claas_rollant.Counter.Files.{FileSystem}
use claas_rollant.Ui.Nav.{ButtonEvent}
use claas_rollant.Ui.Panel.{Panel, Effect, on_event, on_events}
use claas_rollant.Ui.Device.{
  Backend, Hal, Outlets, Session, perform, perform_all, Loop, handled, polled, poll_keys,
}

module _ (fs : FileSystem) (p q : fs.FilePath) (be : Backend) (hal : Hal) where
  abbrev S : Type 0
  S = Session fs p q be hal

  abbrev all : List Effect → Outlets fs p q be hal → Outlets fs p q be hal
  all = perform_all fs p q be hal

  pub perform_all-append :
      (es es' : List Effect) (o : Outlets fs p q be hal) → all (es ++ es') o ≡ all es' (all es o)
  perform_all-append [] es' o = refl
  perform_all-append (e ∷ es) es' o = perform_all-append es es' (perform fs p q be hal e o)

  -- The keypad gives the events of a list, and is then in the state `k`.
  abbrev pub Gives : hal.State → List ButtonEvent → hal.State → Type 0
  Gives h [] k = h ≡ k
  Gives h (ev ∷ evs) k =
      (h' : hal.State) × (hal.poll_button h ≡ (h', ok (some ev))) × Gives h' evs k

  -- A session after some key events.
  abbrev pub after : S → hal.State → Panel → List Effect → S
  after s k panel es = record s {
    hardware = k;
    display = record (s.display) { panel = panel };
    outlets = all es s.outlets;
  }

  -- The loop over the keys, from what a look at the keypad gave.
  abbrev answered :
      ℕ → S → hal.State × Result (Option ButtonEvent) hal.HalError → Loop fs p q be hal
  answered fuel s (h, r) =
      polled fs p q be hal (poll_keys fs p q be hal fuel) (record s { hardware = h }) r

  poll_one :
      (fuel : ℕ) (s : S) (h : hal.State) (ev : ButtonEvent) (panel : Panel) (es : List Effect)
      → hal.poll_button s.hardware ≡ (h, ok (some ev))
      → on_event ev s.display.panel ≡ some (panel, es)
      → poll_keys fs p q be hal (suc fuel) s ≡ poll_keys fs p q be hal fuel (after s h panel es)
  unfolding poll_keys
  poll_one fuel s h ev panel es e f =
      ap (λ (x : hal.State × Result (Option ButtonEvent) hal.HalError). answered fuel s x) e
      ∙ ap (handled fs p q be hal (poll_keys fs p q be hal fuel) (record s { hardware = h })) f

  on_events-cons :
      (ev : ButtonEvent) (evs : List ButtonEvent) (panel last : Panel) (es : List Effect)
      → on_events (ev ∷ evs) panel ≡ some (last, es)
      → (mid : Panel) × (now : List Effect) × (later : List Effect) × (on_event ev panel
          ≡ some (mid, now))
        × (on_events evs mid ≡ some (last, later))
        × (es ≡ now ++ later)
  unfolding on_events
  on_events-cons ev evs panel last es h = elim (Option-cases (on_event ev panel)) [
    | inl e ↦ absurd (ground (arith, e, h))
    | inr ((mid, now), e) ↦ elim (Option-cases (on_events evs mid)) [
      | inl f ↦ absurd (ground (arith, e, f, h))
      | inr ((end, later), f) ↦
          let g : ◌≡◌ {A = Option (Panel × List Effect)} (some (end, now ++ later))
              (some (last, es)) =
            ground (arith, e, f, h) in
          (mid, now, later, e, f ∙ ground (arith, g), ground (arith, g))
    ]
  ]

  -- The keys of a list, handled one by one as they are read, do what the model on lists says.
  pub poll_keys-events :
      (evs : List ButtonEvent) (fuel : ℕ) (s : S) (k : hal.State) (last : Panel) (es : List Effect)
      → Gives s.hardware evs k
      → on_events evs s.display.panel ≡ some (last, es)
      → length evs < fuel
      → (rest : ℕ) × (poll_keys fs p q be hal fuel s
          ≡ poll_keys fs p q be hal (suc rest) (after s k last es))
  unfolding on_events
  poll_keys-events evs zero s k last es g h l = absurd (omega arith)
  poll_keys-events [] (suc fuel) s k last es g h l =
      (fuel, ap (poll_keys fs p q be hal (suc fuel)) (ground (arith, g, h)))
  poll_keys-events (ev ∷ evs) (suc fuel) s k last es (h', e, g) h l =
      let (mid, now, later, f, rest, es_eq) = on_events-cons ev evs s.display.panel last es h in
      let (n, run) =
        poll_keys-events evs fuel (after s h' mid now) k last later g rest (omega arith) in
      (
        n,
        poll_one fuel s h' ev mid now e f
            ∙ run
            ∙ ap (λ o. poll_keys fs p q be hal (suc n) (record (after s k last es) { outlets = o }))
                (sym (perform_all-append now later s.outlets)
                  ∙ ap (λ x. all x s.outlets) (sym es_eq)),
      )

  pub poll_last :
      (fuel : ℕ) (s : S) (h : hal.State) (r : Result (Option ButtonEvent) hal.HalError)
      → hal.poll_button s.hardware ≡ (h, r)
      → poll_keys fs p q be hal (suc fuel) s
        ≡ polled fs p q be hal (poll_keys fs p q be hal fuel) (record s { hardware = h }) r
  unfolding poll_keys
  poll_last fuel s h r e =
      ap (λ (x : hal.State × Result (Option ButtonEvent) hal.HalError). answered fuel s x) e
