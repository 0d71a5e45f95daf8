-- ===== src/Ui/Labels.antt =====
-- The words of the panel in both languages: `Strings`, `EN`, `DE` and `table` of
-- src/baler-ui/src/i18n.rs.
use claas_rollant.Prelude.Text.{Text, codes}
use claas_rollant.Ui.Language.{Lang, en, de}

pub record Strings : Type 0 where
  pub title : Text
  pub language_name : Text
  pub bale_full_banner : Text
  pub session_caption : Text
  pub total_caption : Text
  pub knife_caption : Text
  pub sk_wrap : Text
  pub sk_wrapping : Text
  pub sk_knife_toggle : Text
  pub sk_knife_active : Text
  pub sk_reset_session : Text
  pub sk_session_plus : Text
  pub sk_session_minus : Text
  pub sk_service : Text
  pub service_title : Text
  pub enter_pin : Text
  pub pin_hint : Text
  pub network_caption : Text
  pub sk_reset_total : Text
  pub sk_use_ethernet : Text
  pub sk_use_ethercat : Text
  pub sk_io_test : Text
  pub sk_back : Text
  pub eth_title : Text
  pub eth_offline : Text
  pub static_ip_caption : Text
  pub sk_return_ethercat : Text
  pub fault_title : Text
  pub fault_detail : Text
  pub fault_hint : Text
  pub mode_initialising : Text
  pub mode_operational : Text
  pub mode_fault : Text
  pub mode_ethernet : Text
  pub knife_unknown : Text
  pub knife_in : Text
  pub knife_out : Text
  pub fault_link_lost : Text

-- `EN`
abbrev pub english : Strings
english = record {
  title = codes "BALER";
  language_name = codes "ENGLISH";
  bale_full_banner = codes "● BALE FULL — READY TO WRAP";
  session_caption = codes "SESSION";
  total_caption = codes "TOTAL";
  knife_caption = codes "KNIFE";
  sk_wrap = codes "WRAP";
  sk_wrapping = codes "WRAPPING…";
  sk_knife_toggle = codes "TOGGLE KNIVES";
  sk_knife_active = codes "KNIVES…";
  sk_reset_session = codes "RESET SESSION";
  sk_session_plus = codes "COUNT +1";
  sk_session_minus = codes "COUNT -1";
  sk_service = codes "SERVICE";
  service_title = codes "SERVICE";
  enter_pin = codes "ENTER PIN";
  pin_hint = codes "▲▼ digit   ◀▶ position   Enter confirm";
  network_caption = codes "NETWORK";
  sk_reset_total = codes "RESET TOTAL";
  sk_use_ethernet = codes "USE ETHERNET";
  sk_use_ethercat = codes "USE ETHERCAT";
  sk_io_test = codes "IO TEST";
  sk_back = codes "BACK";
  eth_title = codes "ETHERNET MODE";
  eth_offline = codes "CONTROL OFFLINE — ETHERCAT STOPPED";
  static_ip_caption = codes "STATIC IP";
  sk_return_ethercat = codes "RETURN TO ETHERCAT";
  fault_title = codes "⚠ FAULT";
  fault_detail =
      codes
        "No EtherCAT link — check the cable/coupler.\nOutputs are off; clears automatically when the bus recovers.";
  fault_hint = codes "F6 → SERVICE  ·  Ethernet maintenance mode";
  mode_initialising = codes "INITIALISING";
  mode_operational = codes "OPERATIONAL";
  mode_fault = codes "FAULT";
  mode_ethernet = codes "ETHERNET";
  knife_unknown = codes "UNKNOWN";
  knife_in = codes "IN";
  knife_out = codes "OUT";
  fault_link_lost = codes "ETHERCAT LINK LOST";
}

-- `DE`
abbrev pub german : Strings
german = record {
  title = codes "BALER";
  language_name = codes "DEUTSCH";
  bale_full_banner = codes "● BALLEN VOLL — BEREIT ZUM WICKELN";
  session_caption = codes "SCHICHT";
  total_caption = codes "GESAMT";
  knife_caption = codes "MESSER";
  sk_wrap = codes "WICKELN";
  sk_wrapping = codes "WICKELT…";
  sk_knife_toggle = codes "MESSER SCHALTEN";
  sk_knife_active = codes "MESSER…";
  sk_reset_session = codes "SCHICHT NULLEN";
  sk_session_plus = codes "ZÄHLER +1";
  sk_session_minus = codes "ZÄHLER -1";
  sk_service = codes "WARTUNG";
  service_title = codes "WARTUNG";
  enter_pin = codes "PIN EINGEBEN";
  pin_hint = codes "▲▼ Ziffer   ◀▶ Position   Enter Bestätigen";
  network_caption = codes "NETZWERK";
  sk_reset_total = codes "GESAMT NULLEN";
  sk_use_ethernet = codes "ETHERNET NUTZEN";
  sk_use_ethercat = codes "ETHERCAT NUTZEN";
  sk_io_test = codes "EA-TEST";
  sk_back = codes "ZURÜCK";
  eth_title = codes "ETHERNET-MODUS";
  eth_offline = codes "STEUERUNG OFFLINE — ETHERCAT GESTOPPT";
  static_ip_caption = codes "STATISCHE IP";
  sk_return_ethercat = codes "ZURÜCK ZU ETHERCAT";
  fault_title = codes "⚠ STÖRUNG";
  fault_detail =
      codes
        "Keine EtherCAT-Verbindung — Kabel/Koppler prüfen.\nAusgänge sind aus; wird automatisch zurückgesetzt, sobald der Bus verfügbar ist.";
  fault_hint = codes "F6 → WARTUNG  ·  Ethernet-Wartungsmodus";
  mode_initialising = codes "INITIALISIERUNG";
  mode_operational = codes "BETRIEB";
  mode_fault = codes "STÖRUNG";
  mode_ethernet = codes "ETHERNET";
  knife_unknown = codes "UNBEKANNT";
  knife_in = codes "INNEN";
  knife_out = codes "AUSSEN";
  fault_link_lost = codes "ETHERCAT-VERBINDUNG VERLOREN";
}

unfoldable pub table : Lang → Strings
table en = english
table de = german
