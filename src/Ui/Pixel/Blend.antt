-- ===== src/Ui/Pixel/Blend.antt =====
-- Blending is the premultiplied "over" of each channel.
use Prim.Native.Nat.{bit_or, bit_or-bitwise, digits}
use native.Mathlib.Nat.{pow-suc, mul_assoc, eq-zero-or-pos, mul-le-mul}
use claas_rollant.Prelude.{
  ℕ, zero, suc, ◌+◌, ◌-◌, ◌*◌, ◌/◌, ◌%◌, ◌^◌, ◌≤◌, ◌<◌, min, max, ◌≡◌, refl, sym, ap, ◌∙◌, arith,
  inl, inr,
}
use claas_rollant.Ui.Pixel.{RgbaColor, channels, pack, from_rgb, blend}

abbrev or_digits : ℕ → ℕ → ℕ → ℕ
or_digits = digits (λ b. b) max

or_zero : (n a : ℕ) → a ≤ n → or_digits n a 0 ≡ a
or_zero zero a h = omega arith
or_zero (suc n) zero h = refl
or_zero (suc n) (suc a) h = grind (arith, or_zero n (suc a / 2))

or_none : (n b : ℕ) → or_digits n 0 b ≡ b
or_none zero b = refl
or_none (suc n) b = refl

-- The last digit of an `or` with an even number.
or_even : (n y b : ℕ) → 0 < y → or_digits (suc n) (y * 2) b ≡ or_digits n y (b / 2) * 2 + b % 2
or_even n y b h = opened (y * 2) refl
  where
    opened : (x : ℕ) → x ≡ y * 2 → or_digits (suc n) x b ≡ or_digits n y (b / 2) * 2 + b % 2
    opened zero e = absurd (omega (arith, h, e))
    opened (suc x) e =
        let half : suc x / 2 ≡ y = omega (arith, e) in
        let even : suc x % 2 ≡ 0 = omega (arith, e) in rw half (rw even (omega arith))

-- An `or` of numbers whose digits do not meet is their sum.
or_above : (k n a y b : ℕ) → b < 2 ^ k → y ≡ a * 2 ^ k → y ≤ n → or_digits n y b ≡ y + b
or_above zero n a y b h e l =
    let none_left : b ≡ 0 = omega (arith, h) in rw none_left (or_zero n y l ∙ omega arith)
or_above (suc k) zero a y b h e l =
    let none_left : y ≡ 0 = omega (arith, l) in rw none_left (omega arith)
or_above (suc k) (suc n) a y b h e l =
    let half = a * 2 ^ k in
    let doubled : y ≡ half * 2 = e ∙ ap (λ p. a * p) (pow-suc 2 k) ∙ sym (mul_assoc a (2 ^ k) 2) in
    elim (eq-zero-or-pos half) [
      | inl z ↦
          let none_left : y ≡ 0 = omega (arith, z, doubled) in
          rw none_left (or_none (suc n) b ∙ omega arith)
      | inr p ↦
          let below : b / 2 < 2 ^ k = omega (arith, h, pow-suc 2 k) in
          let rest = or_above k n a half (b / 2) below refl (omega (arith, doubled, l, p)) in
          rw doubled (or_even n half b p ∙ omega (arith, rest))
    ]

or_sum : (k a b : ℕ) → b < 2 ^ k → bit_or (a * 2 ^ k) b ≡ a * 2 ^ k + b
or_sum k a b h =
    (λ i. bit_or-bitwise (a * 2 ^ k) b i)
    ∙ or_above k (a * 2 ^ k) a (a * 2 ^ k) b h refl (omega arith)

pack_sum : (r g b : ℕ) → g < 256 → b < 256 → pack r g b ≡ (r * 256 + g) * 2 ^ 8 + b
pack_sum r g b hg hb =
    let first : bit_or (r * 2 ^ 16) (g * 2 ^ 8) ≡ (r * 256 + g) * 2 ^ 8 =
      or_sum 16 r (g * 2 ^ 8) (omega (arith, hg)) ∙ omega arith in
    ap (λ x. bit_or x b) first ∙ or_sum 8 (r * 256 + g) b hb

channels-pack : (r g b : ℕ) → r < 256 → g < 256 → b < 256 → channels (pack r g b) ≡ (r, g, b)
unfolding channels
channels-pack r g b hr hg hb = rw (pack_sum r g b hg hb) (
    let er : ((r * 256 + g) * 256 + b) / 65536 % 256 ≡ r = omega (arith, hr, hg, hb) in
    let eg : ((r * 256 + g) * 256 + b) / 256 % 256 ≡ g = omega (arith, hr, hg, hb) in
    let eb : ((r * 256 + g) * 256 + b) % 256 ≡ b = omega (arith, hr, hg, hb) in
    rw er (rw eg (rw eb refl)))

-- A colour whose channels are scaled by its alpha, all of them u8.
pub record IsPremultiplied (c : RgbaColor) : Type 0 where
  pub alpha_fits : c.alpha ≤ 255
  pub red_scaled : c.red ≤ c.alpha
  pub green_scaled : c.green ≤ c.alpha
  pub blue_scaled : c.blue ≤ c.alpha

-- The premultiplied "over": the colour's channel, and what its alpha leaves of the pixel's.
abbrev pub over : ℕ → ℕ → ℕ → ℕ
over c alpha d = c + d * (255 - alpha) / 255

over_fits : (c alpha d : ℕ) → c ≤ alpha → alpha ≤ 255 → d < 256 → over c alpha d < 256
over_fits c alpha d hc ha hd =
    let bound : d * (255 - alpha) ≤ 255 * (255 - alpha) =
      mul-le-mul (omega (arith, hd)) (omega arith) in
    omega (arith, bound, hc, ha)

over_opaque : (c alpha d : ℕ) → alpha ≡ 255 → over c alpha d ≡ c
over_opaque c alpha d e = rw e (omega arith)

over_clear : (c alpha d : ℕ) → c ≤ alpha → alpha ≡ 0 → over c alpha d ≡ d
over_clear c alpha d h e =
    let none_added : c ≡ 0 = omega (arith, h, e) in rw none_added (rw e (omega arith))

-- The cut to 255 never cuts.
blend_exact :
    (c : RgbaColor) (v : ℕ)
    → IsPremultiplied c
    → let (dr, dg, db) = channels v in
      (blend c v ≡ pack (over c.red c.alpha dr) (over c.green c.alpha dg) (over c.blue c.alpha db))
      × (over c.red c.alpha dr < 256)
      × (over c.green c.alpha dg < 256)
      × (over c.blue c.alpha db < 256)
unfolding blend channels
blend_exact c v h =
    let fr = over_fits c.red c.alpha (v / 2 ^ 16 % 256) h.red_scaled h.alpha_fits (omega arith) in
    let fg =
      over_fits c.green c.alpha (v / 2 ^ 8 % 256) h.green_scaled h.alpha_fits (omega arith) in
    let fb = over_fits c.blue c.alpha (v % 256) h.blue_scaled h.alpha_fits (omega arith) in
    let uncut : (x : ℕ) → x < 256 → min x 255 ≡ x = λ x hx. omega (arith, hx) in
    (rw (uncut _ fr) (rw (uncut _ fg) (rw (uncut _ fb) refl)), fr, fg, fb)

-- Of a premultiplied colour blended over a pixel each channel is the exact "over", it is at most 255, so
-- that the cut to 255 never cuts; an opaque colour replaces the pixel, and a fully transparent one
-- leaves each of its channels; and the channels of `from_rgb` are the ones it was given.
pub blend_lem :
    (c : RgbaColor) (v : ℕ)
    → IsPremultiplied c
    → let (dr, dg, db) = channels v in
      (channels (blend c v)
        ≡ (over c.red c.alpha dr, over c.green c.alpha dg, over c.blue c.alpha db))
      × (c.alpha ≡ 255 → blend c v ≡ from_rgb c.red c.green c.blue)
      × (c.alpha ≡ 0 → channels (blend c v) ≡ channels v)
      × (channels (from_rgb c.red c.green c.blue) ≡ (c.red, c.green, c.blue))
unfolding from_rgb
blend_lem c v h =
    let (dr, dg, db) = channels v in
    let (exact, fr, fg, fb) = blend_exact c v h in
    let blended = ap channels exact ∙ channels-pack _ _ _ fr fg fb in
    (
      blended,
      λ e.
          exact
          ∙ rw (over_opaque c.red c.alpha dr e)
              (rw (over_opaque c.green c.alpha dg e) (rw (over_opaque c.blue c.alpha db e) refl)),
      λ e.
          blended
          ∙ rw (over_clear c.red c.alpha dr h.red_scaled e) (
              rw (over_clear c.green c.alpha dg h.green_scaled e)
                (rw (over_clear c.blue c.alpha db h.blue_scaled e) refl)),
      channels-pack c.red c.green c.blue (omega (arith, h)) (omega (arith, h)) (omega (arith, h)),
    )
