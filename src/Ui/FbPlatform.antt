-- ===== src/Ui/FbPlatform.antt =====
-- The platform that the panel gives to Slint: `FbPlatform` of src/baler-ui/src/platform.rs. An instant is
-- its milliseconds on the clock, and `elapsed` stops at 0.
use claas_rollant.Prelude.{ℕ, ◌-◌, Result, ok}

pub record FbPlatform (Window : Type 0) : Type 0 where
  pub window : Window
  pub start : ℕ

module _ {Window : Type 0} where
  abbrev pub new : Window → ℕ → FbPlatform Window
  new window now = record { window = window; start = now }

  -- The window that was given, without an error.
  abbrev pub create_window_adapter : {E : Type 0} → FbPlatform Window → Result Window E
  create_window_adapter p = ok p.window

  abbrev pub duration_since_start : FbPlatform Window → ℕ → ℕ
  duration_since_start p now = now - p.start
