-- ===== src/Ui/Device.antt =====
-- The main loop of the panel process: `main` and the `Backend` trait of src/baler-ui/src/main.rs. The
-- hardware layer and the toolkit stand as parameters; the loop handles each key event as it is read.
pub mod Launch
pub mod Keys
pub mod Rounds
pub mod Backends
pub mod Safe
pub mod Ends
use claas_rollant.Prelude.{
  ℕ, zero, suc, ◌-◌, ◌*◌, ◌++◌, Bool, false, List, [], ◌∷◌, Option, none, some, Result, ok, err,
  Trial, replicate, if◌then◌else◌,
}
use claas_rollant.Prelude.Text.{Text, codes}
use claas_rollant.Prelude.Phases.{Phase, ◌>>=◌, on_part, from_err, trial, continue_with}
use claas_rollant.Ipc.{Command, StateSnapshot}
use claas_rollant.Counter.Files.{FileSystem}
use claas_rollant.Ui.Nav.{ButtonEvent, main, next_nav}
use claas_rollant.Ui.Language as Language
use claas_rollant.Ui.Language.{Lang}
use claas_rollant.Ui.Panel.{Panel, Effect, send, save_lang, new_service, on_event, stream}
use claas_rollant.Ui.View.{View}
use claas_rollant.Ui.Loop.{Led, Display, start, redraw, tick}

-- `Backend`, with its construction: the handle is the implementation's own state, the world what is
-- outside of it. Construction and step are given the milliseconds on the clock; `none` stands for
-- missing fuel.
pub record Backend : Type 1 where
  pub Handle : Type 0
  pub World : Type 0
  pub OpenError : Type 0
  pub make_backend : ℕ → Phase World OpenError Handle
  pub step : ℕ → Handle → World → Option (Handle × World × StateSnapshot)
  pub command : Command → Handle → World → Handle × World

-- cr1140-hal and Slint: the frame buffer, the keypad, the platform and the window, in one state. A
-- drawing gives the pixels for what is set on the window, if anything has to be drawn.
pub record Hal : Type 1 where
  pub State : Type 0
  pub HalError : Type 0
  pub ToolkitError : Type 0
  pub open_double_buffered : Trial State HalError (ℕ × ℕ)
  pub open_keypad_nonblocking : Trial State HalError (Unit {0})
  pub set_platform : Trial State ToolkitError (Unit {0})
  pub set_size : ℕ → ℕ → State → State
  pub new_window : Trial State ToolkitError (Unit {0})
  pub show_error : ToolkitError → Text
  pub update_timers_and_animations : State → State
  pub poll_button : State → State × Result (Option ButtonEvent) HalError
  pub draw_if_needed : View → List ℕ → State → State × List ℕ × Bool
  pub copy_from : List ℕ → ℕ → State → State
  pub present : Trial State HalError (Unit {0})
  pub set_led_typed : Led → ℕ → Trial State HalError (Unit {0})

module _ (fs : FileSystem) (lang_path lang_path_fallback : fs.FilePath) (be : Backend)
    (hal : Hal) where
  -- What the operator's keys act upon: the backend and the file of the language.
  pub record Outlets : Type 0 where
    pub handle : be.Handle
    pub world : be.World
    pub disk : fs.Disk

  pub record Session : Type 0 where
    pub hardware : hal.State
    pub outlets : Outlets
    pub display : Display
    pub buf : List ℕ
    pub width : ℕ
    pub led_start : ℕ

  -- How the process ends: by an error that `main` returns, or by a panic.
  pub data UiError : Type 0 where
    hal_failed : hal.HalError → UiError
    toolkit_failed : Text → UiError
    backend_failed : be.OpenError → UiError
    panicked : UiError

  abbrev pub perform : Effect → Outlets → Outlets
  perform (send cmd) o =
      let (handle, world) = be.command cmd o.handle o.world in
      record o { handle = handle; world = world }
  perform (save_lang l) o = record o {
    disk = Language.save_lang fs lang_path lang_path_fallback l o.disk;
  }

  abbrev pub perform_all : List Effect → Outlets → Outlets
  perform_all [] o = o
  perform_all (e ∷ es) o = perform_all es (perform e o)

  abbrev pub Loop : Type 0
  Loop = Option (Session × Result (Unit {0}) UiError)

  abbrev pub handled : (Session → Loop) → Session → Option (Panel × List Effect) → Loop
  handled rest s none = some (s, err panicked)
  handled rest s (some (p, es)) =
      rest (record s {
        display = record (s.display) { panel = p };
        outlets = perform_all es s.outlets;
      })

  -- What the loop does with what a look at the keypad gave.
  abbrev pub polled : (Session → Loop) → Session → Result (Option ButtonEvent) hal.HalError → Loop
  polled rest s (err e) = some (s, err (hal_failed e))
  polled rest s (ok none) = some (s, ok tt)
  polled rest s (ok (some ev)) = handled rest s (on_event ev s.display.panel)

  -- `while let Some(ev) = reader.poll_button()?`, on fuel.
  unfoldable pub poll_keys : ℕ → Session → Loop
  poll_keys zero s = none
  poll_keys (suc fuel) s =
      let (hardware, r) = hal.poll_button s.hardware in
      polled (poll_keys fuel) (record s { hardware = hardware }) r

  -- The drawing at the end of a round; a frame that cannot be presented is dropped.
  unfoldable pub draw : Session → Session
  draw s =
      let (hardware, buf, drawn) = hal.draw_if_needed s.display.window s.buf s.hardware in
      let shown = (hal.present (hal.copy_from buf (s.width * 4) hardware)).0 in
      record s { hardware = if drawn then shown else hardware; buf = buf }

  -- Writes of LEDs, one after the other; an LED that refuses its value is passed over.
  abbrev pub write_leds : List (Led × ℕ) → hal.State → hal.State
  write_leds [] h = h
  write_leds ((led, value) ∷ rest) h = write_leds rest (hal.set_led_typed led value h).0

  -- The round after the keys: the stream of the IO test page, the redraw, the LEDs and the drawing.
  abbrev pub show : ℕ → StateSnapshot → Session → Session
  show t snap s =
      let shown = redraw snap s.display in
      let (led, writes) = tick (t - s.led_start) snap s.display.led in
      draw (record s {
        hardware = write_leds writes s.hardware;
        outlets = perform_all (stream s.display.panel) s.outlets;
        display = record shown { led = led };
      })

  abbrev pub shown_after : ℕ → StateSnapshot → Loop → Loop
  shown_after t snap none = none
  shown_after t snap (some (s, ok u)) = some (show t snap s, ok tt)
  shown_after t snap (some (s, err e)) = some (s, err e)

  -- The screen that the mode forces.
  abbrev pub follow : StateSnapshot → Session → Session
  follow snap s =
      let p = s.display.panel in
      record s {
        display = record (s.display) { panel = record p { nav = next_nav p.nav snap.mode } };
      }

  abbrev pub stepped : ℕ → ℕ → Session → Option (be.Handle × be.World × StateSnapshot) → Loop
  stepped fuel t s none = none
  stepped fuel t s (some (handle, world, snap)) = shown_after t snap (
      poll_keys fuel (
        follow snap (record s { outlets = record (s.outlets) { handle = handle; world = world } })))

  -- One round of the loop, at `t` milliseconds on the clock.
  unfoldable pub loop_round : ℕ → ℕ → Session → Loop
  loop_round fuel t s =
      stepped fuel t (record s { hardware = hal.update_timers_and_animations s.hardware })
        (be.step t s.outlets.handle s.outlets.world)

  -- The rounds of the loop at the given times, up to the first error. The loop has no other end.
  unfoldable pub main_loop : ℕ → List ℕ → Session → Loop
  main_loop fuel [] s = some (s, ok tt)
  main_loop fuel (t ∷ ts) s = continue_with (λ u. main_loop fuel ts) (loop_round fuel t s)
