-- ===== src/Prelude/Text/Decimal.antt =====
-- The decimal print of a u64, and `str::parse::<u64>`.
use Prim.Native.Nat.{ℕ, zero, suc, ◌+◌, ◌-◌, ◌*◌, ◌/◌, ◌%◌, ◌^◌, ◌≤◌, ◌<◌}
use mathlib.Core.Path.{◌≡◌, refl, ◌∙◌}
use mathlib.Core.Logic.{◌≢◌}
use native.Mathlib.Nat.{pow-suc}
use mathlib.Core.Bool.{◌&&◌}
use mathlib.Core.Option.{Option, none, some}
use mathlib.Core.List.{List, [], ◌∷◌}
use native.Mathlib.Omega.{arith}
use claas_rollant.Prelude.Tests.{leb, ltb, ◌==◌, if◌then◌else◌}
use claas_rollant.Prelude.Lists.{All}
use claas_rollant.Prelude.Words.{max_u64}

-- The digits of `n` before `out`; a u64 has 20 at most.
unfoldable pub digits : ℕ → ℕ → List ℕ → List ℕ
digits zero n out = out
digits (suc fuel) n out =
    let more = digits fuel (n / 10) ((b'0' + n % 10) ∷ out) in
    if ltb n 10 then (b'0' + n) ∷ out else more

unfoldable pub decimal : ℕ → List ℕ
unfolding digits
decimal n = digits 20 n []

-- Digits behind the value read so far; too large a value is an error.
unfoldable pub scan : ℕ → List ℕ → Option ℕ
scan acc [] = some acc
scan acc (c ∷ s) =
    let rest = scan (acc * 10 + (c - b'0')) s in
    if (leb b'0' c && leb c b'9') && leb (acc * 10 + (c - b'0')) max_u64 then rest else none

-- A sign alone is an error, and so is no digit; a leading "+" is accepted.
unfoldable pub parse_u64 : List ℕ → Option ℕ
unfolding scan
parse_u64 [] = none
parse_u64 (c ∷ []) = scan 0 (c ∷ [])
parse_u64 (c ∷ d ∷ s) = if c == b'+' then scan 0 (d ∷ s) else scan 0 (c ∷ d ∷ s)

abbrev pub IsDigit : ℕ → Type 0
IsDigit c = (b'0' ≤ c) × (c ≤ b'9')

digits-All : (fuel n : ℕ) (out : List ℕ) → All IsDigit out → All IsDigit (digits fuel n out)
unfolding digits
digits-All zero n out h = h
digits-All (suc fuel) n out h =
    ground (arith, digits-All fuel (n / 10) ((b'0' + n % 10) ∷ out) ((omega arith, omega arith), h))

pub decimal-All : (n : ℕ) → All IsDigit (decimal n)
unfolding decimal
decimal-All n = digits-All 20 n [] tt

scan-digits :
    (fuel n : ℕ) (out : List ℕ)
    → n < 10 ^ fuel
    → n ≤ max_u64
    → scan 0 (digits fuel n out) ≡ scan n out
unfolding scan digits
scan-digits zero n out h l = let e : n ≡ 0 = omega arith in rw e
scan-digits (suc fuel) n out h l =
    let below : n / 10 < 10 ^ fuel = omega (arith, pow-suc 10 fuel) in
    ground (arith, scan-digits fuel (n / 10) ((b'0' + n % 10) ∷ out) below (omega arith))

digits-ne-nil : (fuel n x : ℕ) (out : List ℕ) → digits fuel n (x ∷ out) ≢ []
unfolding digits
digits-ne-nil zero n x out h = cc
digits-ne-nil (suc fuel) n x out h =
    ground (arith, digits-ne-nil fuel (n / 10) (b'0' + n % 10) (x ∷ out))

parse_u64-scan : (s : List ℕ) → s ≢ [] → All IsDigit s → parse_u64 s ≡ scan 0 s
unfolding parse_u64
parse_u64-scan [] h d = absurd (h refl)
parse_u64-scan (c ∷ []) h d = refl
parse_u64-scan (c ∷ e ∷ s) h d = ground arith

decimal-ne-nil : (n : ℕ) → decimal n ≢ []
unfolding decimal digits
decimal-ne-nil n =
    ground (arith, digits-ne-nil 18 (n / 10 / 10) (b'0' + n / 10 % 10) ((b'0' + n % 10) ∷ []))

-- A u64 is read back from its decimal print.
pub parse_u64-decimal : (n : ℕ) → n ≤ max_u64 → parse_u64 (decimal n) ≡ some n
parse_u64-decimal n h =
    parse_u64-scan (decimal n) (decimal-ne-nil n) (decimal-All n)
    ∙ unfold decimal in (scan-digits 20 n [] (omega arith) h ∙ unfold scan in refl)

scan-le : (acc : ℕ) (s : List ℕ) {n : ℕ} → acc ≤ max_u64 → scan acc s ≡ some n → n ≤ max_u64
unfolding scan
scan-le acc [] {n} h e = ground arith
scan-le acc (c ∷ s) {n} h e = ground (arith, scan-le (acc * 10 + (c - b'0')) s {n = n})

-- What is parsed fits in a u64.
pub parse_u64-le : (s : List ℕ) {n : ℕ} → parse_u64 s ≡ some n → n ≤ max_u64
unfolding parse_u64
parse_u64-le [] e = cc
parse_u64-le (c ∷ []) {n} e = scan-le 0 (c ∷ []) (omega arith) e
parse_u64-le (c ∷ d ∷ s) {n} e =
    ground (arith, scan-le 0 (d ∷ s) {n = n}, scan-le 0 (c ∷ d ∷ s) {n = n})
