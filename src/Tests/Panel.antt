-- ===== src/Tests/Panel.antt =====
-- The panel's keys, its language and its standalone backend.
use claas_rollant.Prelude.{◌≡◌, ◌↔◌, refl, true, false, List, [], ◌∷◌, some, is_ok, arith, inl}
use claas_rollant.Ipc.{Command, operational, fault}
use claas_rollant.Ipc
use claas_rollant.Ui.Nav.{f2, f6, up, pressed, service, io_test, remap_fkey}
use claas_rollant.Ui.Panel.{
  Panel, Effect, send, frame, on_event, press_service, unlocked, service_pin,
}
use claas_rollant.Ui.Gate.{IsValid, IsRight, any_of, is_stream, event_gate, frame_total}
use claas_rollant.Ui.Language.{
  en, de, as_code, try_write, load_lang, save_lang, load_lang-save_lang,
}
use claas_rollant.Tests.Data.{mem_fs, disk}

-- The service screen with the right PIN.
abbrev open_menu : Panel
open_menu = record {
  nav = service;
  menu = record { pin = service_pin; cursor = 3; ethernet_selected = false };
  lang = de;
  io_wrap_held = false;
  io_knives_in_held = false;
  io_knives_out_held = false;
}

-- The physical key F6 lies under the softkey F1.
reset_sent : on_event (pressed f6) open_menu ≡ some (open_menu, send Ipc.reset_total ∷ [])
unfolding on_event press_service remap_fkey unlocked
reset_sent = refl

event_gate_example : (service ≡ service) × IsRight service_pin
event_gate_example =
    event_gate (pressed f6) open_menu open_menu (send Ipc.reset_total ∷ []) reset_sent (inl refl)

frame_total_example :
    (q : Panel) × (es : List Effect) × (frame fault (pressed f2 ∷ pressed up ∷ []) open_menu
      ≡ some (q, es))
    × IsValid q.menu
    × ((any_of is_stream es ≡ true) ↔ (q.nav ≡ io_test))
frame_total_example = frame_total fault (pressed f2 ∷ pressed up ∷ []) open_menu (omega arith)

load_lang-save_lang_example :
    let (d', r) = try_write mem_fs true (as_code en) disk in
    (is_ok r ≡ true → load_lang mem_fs true false (save_lang mem_fs true false en disk) ≡ en)
    × (is_ok r ≡ false
        → is_ok (try_write mem_fs false (as_code en) d').1 ≡ true
        → is_ok (mem_fs.read_to_string (save_lang mem_fs true false en disk) true) ≡ false
        → load_lang mem_fs true false (save_lang mem_fs true false en disk) ≡ en)
load_lang-save_lang_example = load_lang-save_lang mem_fs true false en disk
