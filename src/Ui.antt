-- ===== src/Ui.antt =====
-- The panel: src/baler-ui/src/main.rs, i18n.rs and platform.rs.
pub mod Nav
pub mod Language
pub mod Panel
pub mod Gate
pub mod Led
pub mod Local
pub mod Labels
pub mod View
pub mod Loop
pub mod Device
pub mod Pixel
pub mod FbPlatform
