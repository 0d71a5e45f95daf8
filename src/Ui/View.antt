-- ===== src/Ui/View.antt =====
-- What the panel draws: `push_view` of src/baler-ui/src/main.rs, as the values it sets on the window,
-- which is third party.
pub mod Relabel
use claas_rollant.Prelude.{ℕ, Bool, true, false, ◌||◌, List, [], ◌∷◌, ◌++◌, if◌then◌else◌}
use claas_rollant.Prelude.Text.{Text, codes, decimal}
use claas_rollant.Ipc.{
  Mode, initializing, operational, fault, ethernet, KnifePos, unknown, in_pos, out_pos,
  StateSnapshot,
}
use claas_rollant.Ui.Nav.{Nav, main, service, ethernet_screen, fault_screen, io_test}
use claas_rollant.Ui.Panel.{Panel, display}
use claas_rollant.Ui.Language.{other}
use claas_rollant.Ui.Labels.{Strings, table}

-- The window's pages.
pub data Screen : Type 0 where
  main_page service_page ethernet_page fault_page io_test_page : Screen

unfoldable pub slint_screen : Nav → Screen
slint_screen main = main_page
slint_screen service = service_page
slint_screen ethernet_screen = ethernet_page
slint_screen fault_screen = fault_page
slint_screen io_test = io_test_page

unfoldable pub mode_text : Strings → Mode → Text
mode_text s initializing = s.mode_initialising
mode_text s operational = s.mode_operational
mode_text s fault = s.mode_fault
mode_text s ethernet = s.mode_ethernet

unfoldable pub knife_text : Strings → KnifePos → Text
knife_text s unknown = s.knife_unknown
knife_text s in_pos = s.knife_in
knife_text s out_pos = s.knife_out

-- The four octets with dots between, or a dash.
unfoldable pub ip_text : StateSnapshot → Text
ip_text s =
    if s.ip_valid
    then decimal s.ip.a ++ b'.' ∷ decimal s.ip.b ++ b'.' ∷ decimal s.ip.c ++ b'.' ∷ decimal s.ip.d
    else codes "—"

abbrev pub is_operational : Mode → Bool
is_operational operational = true
is_operational _ = false

-- The fixed labels of the window.
pub record I18n : Type 0 where
  pub title : Text
  pub bale_full_banner : Text
  pub session_caption : Text
  pub total_caption : Text
  pub knife_caption : Text
  pub sk_wrap : Text
  pub sk_wrapping : Text
  pub sk_knife_toggle : Text
  pub sk_knife_active : Text
  pub sk_reset_session : Text
  pub sk_session_plus : Text
  pub sk_session_minus : Text
  pub sk_service : Text
  pub service_title : Text
  pub enter_pin : Text
  pub pin_hint : Text
  pub network_caption : Text
  pub sk_reset_total : Text
  pub sk_use_ethernet : Text
  pub sk_use_ethercat : Text
  pub sk_io_test : Text
  pub sk_language : Text
  pub sk_back : Text
  pub eth_title : Text
  pub eth_offline : Text
  pub static_ip_caption : Text
  pub sk_return_ethercat : Text
  pub fault_title : Text
  pub fault_detail : Text
  pub fault_hint : Text

-- The labels of a table; the language key bears the name of the other language.
abbrev pub labels : Strings → Strings → I18n
labels s other = record {
  title = s.title;
  bale_full_banner = s.bale_full_banner;
  session_caption = s.session_caption;
  total_caption = s.total_caption;
  knife_caption = s.knife_caption;
  sk_wrap = s.sk_wrap;
  sk_wrapping = s.sk_wrapping;
  sk_knife_toggle = s.sk_knife_toggle;
  sk_knife_active = s.sk_knife_active;
  sk_reset_session = s.sk_reset_session;
  sk_session_plus = s.sk_session_plus;
  sk_session_minus = s.sk_session_minus;
  sk_service = s.sk_service;
  service_title = s.service_title;
  enter_pin = s.enter_pin;
  pin_hint = s.pin_hint;
  network_caption = s.network_caption;
  sk_reset_total = s.sk_reset_total;
  sk_use_ethernet = s.sk_use_ethernet;
  sk_use_ethercat = s.sk_use_ethercat;
  sk_io_test = s.sk_io_test;
  sk_language = other.language_name;
  sk_back = s.sk_back;
  eth_title = s.eth_title;
  eth_offline = s.eth_offline;
  static_ip_caption = s.static_ip_caption;
  sk_return_ethercat = s.sk_return_ethercat;
  fault_title = s.fault_title;
  fault_detail = s.fault_detail;
  fault_hint = s.fault_hint;
}

pub record View : Type 0 where
  pub screen : Screen
  pub tr : I18n
  pub shown_mode : Text
  pub bale_full : Bool
  pub shown_knife : Text
  pub wrap_armed : Bool
  pub wrap_active : Bool
  pub knife_active : Bool
  pub session_text : Text
  pub total_text : Text
  pub ethercat_healthy : Bool
  pub shown_ip : Text
  pub pin_display : Text
  pub ethernet_selected : Bool
  pub fault_text : Text
  pub di1 : Bool
  pub di2 : Bool
  pub di3 : Bool
  pub out_wrap : Bool
  pub out_knives_in : Bool
  pub out_knives_out : Bool

unfoldable pub push_view : Panel → StateSnapshot → View
push_view p snap =
    let s = table p.lang in
    record {
      screen = slint_screen p.nav;
      tr = labels s (table (other p.lang));
      shown_mode = mode_text s snap.mode;
      bale_full = snap.bale_full || snap.full_latched;
      shown_knife = knife_text s snap.knife;
      wrap_armed = snap.wrap_armed;
      wrap_active = snap.wrap_active;
      knife_active = snap.knife_active;
      session_text = decimal snap.session;
      total_text = decimal snap.total;
      ethercat_healthy = is_operational snap.mode;
      shown_ip = ip_text snap;
      pin_display = display p.menu;
      ethernet_selected = p.menu.ethernet_selected;
      fault_text = s.fault_link_lost;
      di1 = snap.di1;
      di2 = snap.di2;
      di3 = snap.di3;
      out_wrap = p.io_wrap_held;
      out_knives_in = p.io_knives_in_held;
      out_knives_out = p.io_knives_out_held;
    }
