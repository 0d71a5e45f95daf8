-- ===== src/Ui/Device/Launch.antt =====
-- The start of the panel process, up to its loop: `main` of src/baler-ui/src/main.rs.
use claas_rollant.Prelude.{
  ℕ, ◌*◌, ◌++◌, false, List, Option, none, some, Result, ok, Trial, replicate,
}
use claas_rollant.Prelude.Text.{Text, codes}
use claas_rollant.Prelude.Phases.{Phase, ◌>>=◌, on_part, from_err, trial}
use claas_rollant.Ipc.{StateSnapshot}
use claas_rollant.Counter.Files.{FileSystem}
use claas_rollant.Ui.Nav.{main}
use claas_rollant.Ui.Language as Language
use claas_rollant.Ui.Language.{Lang}
use claas_rollant.Ui.Panel.{Panel, new_service}
use claas_rollant.Ui.Loop.{start}
use claas_rollant.Ui.Device as Device
use claas_rollant.Ui.Device.{
  Backend, Hal, UiError, hal_failed, toolkit_failed, backend_failed, panicked,
}

module _ (fs : FileSystem) (lang_path lang_path_fallback : fs.FilePath) (be : Backend)
    (hal : Hal) where
  abbrev pub Failure : Type 0
  Failure = UiError fs lang_path lang_path_fallback be hal

  abbrev pub Session : Type 0
  Session = Device.Session fs lang_path lang_path_fallback be hal

  abbrev pub Loop : Type 0
  Loop = Device.Loop fs lang_path lang_path_fallback be hal

  -- What there is before the loop.
  pub record Outside : Type 0 where
    pub hardware : hal.State
    pub world : be.World
    pub disk : fs.Disk

  abbrev Setup : Type 0 → Type 0
  Setup A = Phase Outside Failure A

  abbrev on_hardware : {E A : Type 0} → (E → Failure) → Trial hal.State E A → Setup A
  on_hardware f m o =
      from_err f (on_part (λ x. x.hardware) (λ h x. record x { hardware = h }) (trial m) o)

  abbrev pub toolkit_error : Text → hal.ToolkitError → Failure
  toolkit_error what e = toolkit_failed (what ++ hal.show_error e)

  abbrev set_size : ℕ → ℕ → Setup (Unit {0})
  set_size w h o = some (record o { hardware = hal.set_size w h o.hardware }, ok tt)

  abbrev open_backend : ℕ → Setup be.Handle
  open_backend t o =
      from_err backend_failed
        (on_part (λ x. x.world) (λ w x. record x { world = w }) (be.make_backend t) o)

  -- The first screen, with German unless another language is kept, and nothing held.
  abbrev pub first_panel : Lang → Panel
  first_panel lang = record {
    nav = main;
    menu = new_service;
    lang = lang;
    io_wrap_held = false;
    io_knives_in_held = false;
    io_knives_out_held = false;
  }

  -- The first step of the backend, the language, the first view, and the loop.
  abbrev pub begun :
      ℕ → ℕ → ℕ → Outside → Option (be.Handle × be.World × StateSnapshot) → Option Session
  begun t w h o none = none
  begun t w h o (some (handle, world, snap)) =
      let lang = Language.load_lang fs lang_path lang_path_fallback o.disk in
      some (record {
        hardware = o.hardware;
        outlets = record { handle = handle; world = world; disk = o.disk };
        display = start (first_panel lang) snap;
        buf = replicate (w * h) 0;
        width = w;
        led_start = t;
      })

  -- The process after its loop.
  abbrev pub looped :
      Option Session → (Session → Loop) → Option (Outside × Result (Unit {0}) Failure)
  looped none run = none
  looped (some s) run = elim (run s) [
    | none ↦ none
    | some r ↦ some (
      record { hardware = r.0.hardware; world = r.0.outlets.world; disk = r.0.outlets.disk },
      r.1,
    )
  ]

  abbrev pub run_loop : ℕ → ℕ → List ℕ → ℕ → ℕ → be.Handle → Setup (Unit {0})
  run_loop fuel t ts w h handle o =
      looped (begun t w h o (be.step t handle o.world))
        (Device.main_loop fs lang_path lang_path_fallback be hal fuel ts)

  -- `main`, with the time of its start, at which the backend is made and steps first and the beacon
  -- starts, and the times of the rounds.
  unfoldable pub ui_main : ℕ → ℕ → List ℕ → Setup (Unit {0})
  ui_main fuel t ts = do
    size ← on_hardware hal_failed hal.open_double_buffered
    keypad ← on_hardware hal_failed hal.open_keypad_nonblocking
    platform ← on_hardware (toolkit_error (codes "set_platform: ")) hal.set_platform
    sized ← set_size size.0 size.1
    ui ← on_hardware (toolkit_error (codes "AppWindow::new: ")) hal.new_window
    handle ← open_backend t
    run_loop fuel t ts size.0 size.1 handle
