-- ===== src/Tests/Screen.antt =====
-- The panel process on a keypad that is a list of events and failures, and on the link.
use claas_rollant.Prelude.{
  ℕ, suc, ◌<◌, ◌≡◌, ◌≢◌, refl, Bool, true, false, List, [], ◌∷◌, Option, none, some, Result, ok,
  err, arith,
}
use claas_rollant.Ipc.{StateSnapshot, Command, operational, fault}
use claas_rollant.Transport.{first_snapshot}
use claas_rollant.Prelude.Text.{Text}
use claas_rollant.Transport.Links.{Iox}
use claas_rollant.Ui.Nav.{f6, f1, f2, ButtonEvent, pressed}
use claas_rollant.Ui.Panel.{Panel, Effect, on_events}
use claas_rollant.Ui.Gate as Gate
use claas_rollant.Ui.Led.{beacon}
use claas_rollant.Ui.Loop.{Display, start, round}
use claas_rollant.Ui.Loop.Current.{IsTrue, IsCurrent}
use claas_rollant.Ui.Device.{
  Backend, Hal, Session, UiError, loop_round, hal_failed, panicked, draw, perform_all,
}
use claas_rollant.Ui.Device.Rounds.{loop_round-round, loop_round-error, polling, six_set}
use claas_rollant.Ui.Device.Keys.{after}
use claas_rollant.Ui.Device.Backends.{ipc_backend}
use claas_rollant.Ui.Device.Launch.{Outside, ui_main}
use claas_rollant.Ui.Device.Ends.{ui_main_ends}
use claas_rollant.Tests.Data.{first, mem_fs, disk, next_value}

abbrev Keys : Type 0
Keys = List (Result ButtonEvent (Unit {0}))

abbrev next_key : Keys → Keys × Result (Option ButtonEvent) (Unit {0})
next_key [] = ([], ok none)
next_key (ok ev ∷ rest) = (rest, ok (some ev))
next_key (err e ∷ rest) = (rest, err e)

abbrev keypad : Hal
keypad = record {
  State = Keys;
  HalError = Unit {0};
  ToolkitError = Unit {0};
  open_double_buffered = λ h. (h, ok (2, 1));
  open_keypad_nonblocking = λ h. (h, ok tt);
  set_platform = λ h. (h, ok tt);
  set_size = λ w height h. h;
  new_window = λ h. (h, ok tt);
  show_error = λ e. [];
  update_timers_and_animations = λ h. h;
  poll_button = next_key;
  draw_if_needed = λ v buf h. (h, buf, true);
  copy_from = λ buf stride h. h;
  present = λ h. (h, ok tt);
  set_led_typed = λ led value h. (h, err tt);
}

-- A backend that shows one snapshot and keeps the commands, newest first.
abbrev keeping : Backend
keeping = record {
  Handle = Unit {0};
  World = List Command;
  OpenError = Unit {0};
  make_backend = λ t w. some (w, ok tt);
  step = λ t b w. some (b, w, first_snapshot);
  command = λ cmd b w. (b, cmd ∷ w);
}

abbrev session : Keys → Session mem_fs true false keeping keypad
session keys = record {
  hardware = keys;
  outlets = record { handle = tt; world = []; disk = disk };
  display = start first first_snapshot;
  buf = 0 ∷ 0 ∷ [];
  width = 2;
  led_start = 0;
}

abbrev two_keys : List ButtonEvent
two_keys = pressed f1 ∷ pressed f2 ∷ []

started-IsTrue : IsTrue (start first first_snapshot)
started-IsTrue = record { menu_valid = ground arith; window_known = tt }

loop_round-round_example :
    let s = session (ok (pressed f1) ∷ ok (pressed f2) ∷ []) in
    (d : Display) × (es : List Effect) × (lit : Keys) × (round 16 first_snapshot two_keys s.display
      ≡ some (d, es))
    × (loop_round mem_fs true false keeping keypad 3 16 s
        ≡ some (
          draw mem_fs true false keeping keypad (record s {
            hardware = lit;
            display = d;
            outlets = perform_all mem_fs true false keeping keypad es s.outlets;
          }),
          ok tt,
        ))
    × IsCurrent 16 first_snapshot d
    × (let next = beacon 16 first_snapshot in
        (s.display.led.last ≡ some next → lit ≡ [])
        × (s.display.led.last ≢ some next → lit ≡ six_set mem_fs true false keeping keypad next []))
loop_round-round_example =
    loop_round-round mem_fs true false keeping keypad 3 16
      (session (ok (pressed f1) ∷ ok (pressed f2) ∷ [])) tt [] first_snapshot two_keys [] []
      started-IsTrue refl (ok (pressed f2) ∷ [], refl, ([], refl, refl)) refl (omega arith)

loop_round-error_example :
    let s = session (ok (pressed f1) ∷ err tt ∷ []) in
    (last : Panel) × (es : List Effect) × (loop_round mem_fs true false keeping keypad 3 16 s
      ≡ some (
        after mem_fs true false keeping keypad
            (polling mem_fs true false keeping keypad s tt [] first_snapshot)
            []
            last
            es,
        err (hal_failed tt),
      ))
    × (on_events
          (pressed f1 ∷ [])
          (polling mem_fs true false keeping keypad s tt [] first_snapshot).display.panel
        ≡ some (last, es))
    × (Gate.any_of Gate.is_stream es ≡ false)
loop_round-error_example =
    loop_round-error mem_fs true false keeping keypad 3 16 (session (ok (pressed f1) ∷ err tt ∷ []))
      tt [] first_snapshot (pressed f1 ∷ []) (err tt ∷ []) [] tt started-IsTrue refl
      (err tt ∷ [], refl, refl) refl (omega arith)

-- Two snapshots are pending, the newer one a fault.
abbrev lost_link : StateSnapshot
lost_link = record first_snapshot { mode = fault }

abbrev pending : List StateSnapshot
pending = record first_snapshot { mode = operational } ∷ lost_link ∷ []

-- The link with a state channel that is a list.
abbrev panel_link : Iox
panel_link = record {
  World = ℕ;
  NodeError = Unit {0};
  ConnectorError = Text;
  Descriptor = Text;
  Writer = Unit {0};
  Reader = List StateSnapshot;
  create_node = λ w. (w, ok tt);
  descriptor = λ name w. (w, ok name);
  create_writer = λ d w. (w, ok tt);
  create_reader = λ d w. (w, ok pending);
  cleanup_dead_nodes = λ w. w;
  sleep = λ n w. w;
  send_state = λ snap tx w. (w, ok tt);
  send_command = λ cmd tx w. (suc w, ok tt);
  debug_node = λ e. [];
  stack = λ t. t;
  debug = λ t. t;
}

abbrev linked : Session mem_fs true false (ipc_backend panel_link next_value 3) keypad
linked = record {
  hardware = ok (pressed f1) ∷ [];
  outlets = record {
    handle = record { state_rx = pending; cmd_tx = tt; last = first_snapshot };
    world = 0;
    disk = disk;
  };
  display = start first first_snapshot;
  buf = 0 ∷ 0 ∷ [];
  width = 2;
  led_start = 0;
}

-- A keypad that never holds more than one key: the wrap key, pressed anew before each round.
abbrev one_key : Bool → Bool × Result (Option ButtonEvent) (Unit {0})
one_key true = (false, ok (some (pressed f6)))
one_key false = (false, ok none)

abbrev busy_keypad : Hal
busy_keypad = record {
  State = Bool;
  HalError = Unit {0};
  ToolkitError = Unit {0};
  open_double_buffered = λ h. (h, ok (2, 1));
  open_keypad_nonblocking = λ h. (h, ok tt);
  set_platform = λ h. (h, ok tt);
  set_size = λ width height h. h;
  new_window = λ h. (h, ok tt);
  show_error = λ e. [];
  update_timers_and_animations = λ h. true;
  poll_button = one_key;
  draw_if_needed = λ v buf h. (h, buf, true);
  copy_from = λ buf stride h. h;
  present = λ h. (h, ok tt);
  set_led_typed = λ led value h. (h, err tt);
}

abbrev keys_held : Bool → ℕ
keys_held true = 1
keys_held false = 0

fewer_held :
    (h h' : Bool) (ev : ButtonEvent) → one_key h ≡ (h', ok (some ev)) → keys_held h' < keys_held h
fewer_held h h' ev e = ground (arith, e)

held_bounded : (h : Bool) → keys_held h < 2
held_bounded h = ground arith

ui_main_ends_example :
    (o' : Outside mem_fs true false keeping busy_keypad) × (r : Result
      (Unit {0})
      (UiError mem_fs true false keeping busy_keypad))
    × (ui_main mem_fs true false keeping busy_keypad 2 0
          (16 ∷ 32 ∷ [])
          (record { hardware = false; world = []; disk = disk })
        ≡ some (o', r))
    × (r ≢ err panicked)
ui_main_ends_example =
    ui_main_ends mem_fs true false keeping busy_keypad 2 keys_held fewer_held held_bounded
      (λ t b w. refl) (λ t w. refl) 0 (16 ∷ 32 ∷ [])
      (record { hardware = false; world = []; disk = disk })
