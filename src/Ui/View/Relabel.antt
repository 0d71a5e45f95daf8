-- ===== src/Ui/View/Relabel.antt =====
-- The two languages on the window.
use claas_rollant.Prelude.{◌≡◌, ◌≢◌, refl, Bool, true, false, ◌&&◌, not, List, [], ◌∷◌}
use claas_rollant.Prelude.Text.{Text, eq_text}
use claas_rollant.Ipc.{
  StateSnapshot, Mode, initializing, operational, fault, ethernet, KnifePos, unknown, in_pos,
  out_pos,
}
use claas_rollant.Ui.Panel.{Panel}
use claas_rollant.Ui.Language.{Lang, other, en, de}
use claas_rollant.Ui.Labels.{table}
use claas_rollant.Ui.View.{View, push_view, mode_text, knife_text}

-- The texts of a window that a translation changes: all but the title and the name of the mode.
abbrev pub translated : View → List Text
translated v =
    v.tr.bale_full_banner ∷ v.tr.session_caption ∷ v.tr.total_caption ∷ v.tr.knife_caption
    ∷ v.tr.sk_wrap ∷ v.tr.sk_wrapping ∷ v.tr.sk_knife_toggle ∷ v.tr.sk_knife_active
    ∷ v.tr.sk_reset_session ∷ v.tr.sk_session_plus ∷ v.tr.sk_session_minus ∷ v.tr.sk_service
    ∷ v.tr.service_title ∷ v.tr.enter_pin ∷ v.tr.pin_hint ∷ v.tr.network_caption
    ∷ v.tr.sk_reset_total ∷ v.tr.sk_use_ethernet ∷ v.tr.sk_use_ethercat ∷ v.tr.sk_io_test
    ∷ v.tr.sk_language ∷ v.tr.sk_back ∷ v.tr.eth_title ∷ v.tr.eth_offline ∷ v.tr.static_ip_caption
    ∷ v.tr.sk_return_ethercat ∷ v.tr.fault_title ∷ v.tr.fault_detail ∷ v.tr.fault_hint
    ∷ v.shown_knife ∷ v.fault_text ∷ []

-- At each place the texts are different and the first is not empty.
abbrev pub all_differ : List Text → List Text → Bool
all_differ [] [] = true
all_differ (s ∷ ss) (t ∷ ts) = not (eq_text s t) && (not (eq_text s []) && all_differ ss ts)
all_differ _ _ = false

-- The same window in the other language.
abbrev pub toggled : Panel → Panel
toggled p = record p { lang = other p.lang }

words_differ :
    (l : Lang) (k : KnifePos) (p : Panel) (snap : StateSnapshot)
    → let q : Panel = record p { lang = l } in
      let t : StateSnapshot = record snap { knife = k } in
      all_differ (translated (push_view q t)) (translated (push_view (toggled q) t)) ≡ true
unfolding push_view table other knife_text eq_text
words_differ en unknown p snap = refl
words_differ en in_pos p snap = refl
words_differ en out_pos p snap = refl
words_differ de unknown p snap = refl
words_differ de in_pos p snap = refl
words_differ de out_pos p snap = refl

mode_differs :
    (l : Lang) (m : Mode)
    → m ≢ ethernet
    → eq_text (mode_text (table (other l)) m) (mode_text (table l) m) ≡ false
unfolding table other mode_text eq_text
mode_differs en initializing h = refl
mode_differs en operational h = refl
mode_differs en fault h = refl
mode_differs de initializing h = refl
mode_differs de operational h = refl
mode_differs de fault h = refl
mode_differs l ethernet h = absurd (h refl)

title_same : (l : Lang) → (table (other l)).title ≡ (table l).title
unfolding table other
title_same en = refl
title_same de = refl

-- The language key changes every text of the window but the title, the numbers, the PIN and the name
-- ETHERNET of the mode, and none of these texts is empty; the page, the lights and the numbers stay.
pub push_view-other :
    (p : Panel) (snap : StateSnapshot)
    → let v = push_view p snap in
      let v' = push_view (toggled p) snap in
      (all_differ (translated v) (translated v') ≡ true)
      × (v'.tr.title ≡ v.tr.title)
      × (snap.mode ≢ ethernet → eq_text v'.shown_mode v.shown_mode ≡ false)
      × (record v {
        tr = v'.tr;
        shown_mode = v'.shown_mode;
        shown_knife = v'.shown_knife;
        fault_text = v'.fault_text;
      }
          ≡ v')
unfolding push_view
push_view-other p snap =
    (words_differ p.lang snap.knife p snap, title_same p.lang, mode_differs p.lang snap.mode, refl)
