-- ===== src/Ui/Pixel.antt =====
-- The framebuffer's pixels: `Xrgb8888` of src/baler-ui/src/platform.rs, a u32 with 8 bits for each of
-- red, green and blue. No operation here leaves the u32: `& 0xff` is the remainder by 256.
pub mod Blend
use Prim.Native.Nat.{bit_or}
use claas_rollant.Prelude.{ℕ, ◌+◌, ◌-◌, ◌*◌, ◌/◌, ◌%◌, ◌^◌, min}

-- `PremultipliedRgbaColor`: four u8, the colours scaled by alpha.
pub record RgbaColor : Type 0 where
  pub red : ℕ
  pub green : ℕ
  pub blue : ℕ
  pub alpha : ℕ

unfoldable pub channels : ℕ → ℕ × ℕ × ℕ
channels v = (v / 2 ^ 16 % 256, v / 2 ^ 8 % 256, v % 256)

-- `r << 16 | g << 8 | b`
abbrev pub pack : ℕ → ℕ → ℕ → ℕ
pack r g b = bit_or (bit_or (r * 2 ^ 16) (g * 2 ^ 8)) b

unfoldable pub from_rgb : ℕ → ℕ → ℕ → ℕ
from_rgb red green blue = pack red green blue

unfoldable pub blend : RgbaColor → ℕ → ℕ
blend color v =
    let inv = 255 - color.alpha in
    let (dr, dg, db) = channels v in
    let r = color.red + dr * inv / 255 in
    let g = color.green + dg * inv / 255 in
    let b = color.blue + db * inv / 255 in pack (min r 255) (min g 255) (min b 255)
