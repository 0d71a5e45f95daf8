-- ===== src/Prelude/Text.antt =====
-- Text as the list of its code points, with what the program uses of Rust's `str`, `char`, `u64`.
mod Decimal
mod Split
unfoldable pub use Decimal.*
unfoldable pub use Split.*
