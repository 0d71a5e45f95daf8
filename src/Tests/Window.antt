-- ===== src/Tests/Window.antt =====
-- The window and the lights, the pixels, the hardware watchdog and the set-up of the links.
use claas_rollant.Prelude.{◌≡◌, ◌≢◌, refl, true, false, some, ok, arith}
use claas_rollant.Prelude.Text.{eq_text}
use claas_rollant.Ipc.{ethernet}
use claas_rollant.Transport.{first_snapshot}
use claas_rollant.Ui.Nav.{service}
use claas_rollant.Ui.Language.{de, other}
use claas_rollant.Ui.Panel.{Panel, service_pin}
use claas_rollant.Ui.View.{push_view}
use claas_rollant.Ui.View.Relabel.{push_view-other, all_differ, translated}
use claas_rollant.Ui.Pixel.{RgbaColor, channels, blend, from_rgb}
use claas_rollant.Ui.Pixel.Blend.{blend_lem, over}
use claas_rollant.Watchdog.{WatchdogPetter, open_petter, pets, drop}
use claas_rollant.Watchdog.Armed.{petter_armed}
use claas_rollant.Tests.Platform.{driver}

abbrev menu_panel : Panel
menu_panel = record {
  nav = service;
  menu = record { pin = service_pin; cursor = 3; ethernet_selected = false };
  lang = de;
  io_wrap_held = false;
  io_knives_in_held = false;
  io_knives_out_held = false;
}

push_view-other_example :
    let v = push_view menu_panel first_snapshot in
    let v' = push_view (record menu_panel { lang = other de }) first_snapshot in
    (all_differ (translated v) (translated v') ≡ true)
    × (v'.tr.title ≡ v.tr.title)
    × (first_snapshot.mode ≢ ethernet → eq_text v'.shown_mode v.shown_mode ≡ false)
    × (record v {
      tr = v'.tr;
      shown_mode = v'.shown_mode;
      shown_knife = v'.shown_knife;
      fault_text = v'.fault_text;
    }
        ≡ v')
push_view-other_example = push_view-other menu_panel first_snapshot

abbrev half_red : RgbaColor
half_red = record { red = 128; green = 0; blue = 64; alpha = 128 }

blend_lem_example :
    let (dr, dg, db) = channels 0x20ff30 in
    (channels (blend half_red 0x20ff30) ≡ (over 128 128 dr, over 0 128 dg, over 64 128 db))
    × (half_red.alpha ≡ 255 → blend half_red 0x20ff30 ≡ from_rgb 128 0 64)
    × (half_red.alpha ≡ 0 → channels (blend half_red 0x20ff30) ≡ channels 0x20ff30)
    × (channels (from_rgb 128 0 64) ≡ (128, 0, 64))
blend_lem_example = blend_lem half_red 0x20ff30 (omega arith)

abbrev petter : WatchdogPetter driver
petter = record { dev = tt; magic_close = false }

petter_opens : open_petter driver (some 15) false (false, false) ≡ ((true, false), ok petter)
unfolding open_petter
petter_opens = refl

petter_armed_example :
    let last = pets driver 3 petter (true, false) in
    (last.0 ≡ true)
    × (false ≡ false → (drop driver petter last).0 ≡ true)
    × (false ≡ true → true ≡ true → (drop driver petter last).0 ≡ false)
petter_armed_example =
    petter_armed driver (some 15) false (false, false) (true, false) petter 3 petter_opens
