-- ===== src/EthercatIo/Image.antt =====
-- The bits of the process image.
use claas_rollant.Prelude.{
  ℕ, zero, suc, ◌<◌, ◌≡◌, refl, Bool, true, false, ◌==◌, if◌then◌else◌, arith, same,
}
use claas_rollant.Ports.{Outputs}
use claas_rollant.EthercatIo.{
  Channels, bit, set_bit, encode, bit_wrap, bit_knives_in, bit_knives_out,
}

-- A test passes at each number of a range that begins with 0.
passes : (ℕ → Bool) → ℕ → Bool
passes test zero = true
passes test (suc top) = let rest = passes test top in if test top then rest else false

passes-at : (test : ℕ → Bool) (top : ℕ) → passes test top ≡ true → (k : ℕ) → k < top → test k ≡ true
unfolding passes
passes-at test zero all k inside = absurd (omega arith)
passes-at test (suc top) all k inside = grind (arith, passes-at test top)

-- What is expected of `set_bit` at one byte, for each of its eight bits read back at each of the eight.
reads_back : Bool → ℕ → ℕ → ℕ → Bool
reads_back on byte idx j = same (bit (set_bit byte idx on) j) (if j == idx then on else bit byte j)

abbrev at_index : Bool → ℕ → ℕ → Bool
at_index on byte idx = passes (reads_back on byte idx) 8

abbrev at_byte : Bool → ℕ → Bool
at_byte on byte = passes (at_index on byte) 8

table : (on : Bool) → passes (at_byte on) 256 ≡ true
unfolding passes reads_back set_bit
table true = refl
table false = refl

same→eq : (a b : Bool) → same a b ≡ true → a ≡ b
same→eq a b h = ground arith

-- Setting a bit of a byte gives that bit the value and leaves the other seven as they were.
pub bit-set_bit :
    (byte idx j : ℕ) (on : Bool)
    → byte < 256
    → idx < 8
    → j < 8
    → bit (set_bit byte idx on) j ≡ (if j == idx then on else bit byte j)
unfolding reads_back
bit-set_bit byte idx j on hb hi hj =
    let byte_ok = passes-at (at_byte on) 256 (table on) byte hb in
    let idx_ok = passes-at (at_index on byte) 8 byte_ok idx hi in
    same→eq _ _ (passes-at (reads_back on byte idx) 8 idx_ok j hj)

-- The written byte holds the three outputs in bits 0, 1 and 2, and nothing else.
pub bit-encode :
    (ch : Channels) (out : Outputs)
    → (bit (encode ch out) bit_wrap ≡ out.wrap)
      × (bit (encode ch out) bit_knives_in ≡ out.knives_in)
      × (bit (encode ch out) bit_knives_out ≡ out.knives_out)
      × (encode ch out < 8)
unfolding encode
bit-encode ch out = cases out.wrap out.knives_in out.knives_out
  where
    cases :
        (a b c : Bool)
        → let n = set_bit (set_bit (set_bit 0 bit_wrap a) bit_knives_in b) bit_knives_out c in
          (bit n bit_wrap ≡ a) × (bit n bit_knives_in ≡ b) × (bit n bit_knives_out ≡ c) × (n < 8)
    cases true true true = (refl, refl, refl, omega arith)
    cases true true false = (refl, refl, refl, omega arith)
    cases true false true = (refl, refl, refl, omega arith)
    cases true false false = (refl, refl, refl, omega arith)
    cases false true true = (refl, refl, refl, omega arith)
    cases false true false = (refl, refl, refl, omega arith)
    cases false false true = (refl, refl, refl, omega arith)
    cases false false false = (refl, refl, refl, omega arith)
