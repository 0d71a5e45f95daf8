-- ===== src/Counter/Format.antt =====
-- The text of the counter file: `parse`, and the format string of `persist`.
use claas_rollant.Prelude.{
  All, ap, ◌∙◌, false, ℕ, ◌≤◌, ◌≡◌, refl, List, [], ◌∷◌, ◌++◌, Option, none, some, max_u64, arith,
  if◌then◌else◌,
}
use claas_rollant.Prelude.Text.{
  Text, codes, trim, lines, split_once, eq_text, parse_u64, decimal, IsDigit, IsSolid, decimal-All,
  is_whitespace, lines-cons, trim_solid, parse_u64-decimal,
}

pub record Counters : Type 0 where
  pub session : ℕ
  pub total : ℕ

-- `Counters::default()`
abbrev pub zero_counters : Counters
zero_counters = record { session = 0; total = 0 }

infixl 5 ◌>>=◌
abbrev ◌>>=◌ {ℓ κ} : {A : Type ℓ} {B : Type κ} → Option A → (A → Option B) → Option B
none >>= f = none
some a >>= f = f a

abbrev set_field : Text → ℕ → Counters → Counters
set_field k v c =
    if eq_text (trim k) (codes "session")
    then record c { session = v }
    else if eq_text (trim k) (codes "total")
    then record c { total = v }
    else c

-- The body of the loop over the lines.
unfoldable pub parse_line : Text → Counters → Option Counters
unfolding split_once trim parse_u64 eq_text
parse_line line c = do (k, v) ← split_once b'=' line; n ← parse_u64 (trim v); some (set_field k n c)

unfoldable pub parse_lines : List Text → Counters → Option Counters
parse_lines [] c = some c
parse_lines (l ∷ ls) c = do c' ← parse_line l c; parse_lines ls c'

unfoldable pub parse : Text → Option Counters
parse s = parse_lines (lines s) zero_counters

-- `write!(f, "session={}\ntotal={}\n", …)`
unfoldable pub render : Counters → Text
unfolding decimal
render c =
    codes "session="
    ++ (decimal c.session ++ (10 ∷ (codes "total=" ++ (decimal c.total ++ 10 ∷ []))))

digit_solid : (c : ℕ) → IsDigit c → is_whitespace c ≡ false
unfolding is_whitespace
digit_solid c h = ground arith

digits-IsSolid : (s : Text) → All IsDigit s → IsSolid s
digits-IsSolid [] h = tt
digits-IsSolid (c ∷ s) h = (digit_solid c h.0, digits-IsSolid s h.1)

decimal-IsSolid : (n : ℕ) → IsSolid (decimal n)
decimal-IsSolid n = digits-IsSolid (decimal n) (decimal-All n)

-- The number behind the "=" of a line is read back.
value_line : (n : ℕ) (c : Counters) → n ≤ max_u64 → parse_u64 (trim (decimal n)) ≡ some n
value_line n c h = rw (trim_solid (decimal n) (decimal-IsSolid n)) (parse_u64-decimal n h)

session_line :
    (n : ℕ) (c : Counters)
    → n ≤ max_u64
    → parse_line (codes "session" ++ b'=' ∷ decimal n) c ≡ some (record c { session = n })
unfolding parse_line
session_line n c h = rw (value_line n c h) refl

total_line :
    (n : ℕ) (c : Counters)
    → n ≤ max_u64
    → parse_line (codes "total" ++ b'=' ∷ decimal n) c ≡ some (record c { total = n })
unfolding parse_line
total_line n c h = rw (value_line n c h) refl

session-IsSolid : (n : ℕ) → IsSolid (codes "session=" ++ decimal n)
unfolding is_whitespace
session-IsSolid n = ground (arith, decimal-IsSolid n)

total-IsSolid : (n : ℕ) → IsSolid (codes "total=" ++ decimal n)
unfolding is_whitespace
total-IsSolid n = ground (arith, decimal-IsSolid n)

lines-render :
    (c : Counters)
    → lines (render c)
      ≡ (codes "session=" ++ decimal c.session) ∷ (codes "total=" ++ decimal c.total) ∷ []
unfolding render lines
lines-render c =
    lines-cons (codes "session=" ++ decimal c.session)
      (codes "total=" ++ (decimal c.total ++ 10 ∷ [])) (session-IsSolid c.session)
    ∙ ap (◌∷◌ (codes "session=" ++ decimal c.session))
        (lines-cons (codes "total=" ++ decimal c.total) [] (total-IsSolid c.total))

parse_lines-render :
    (c : Counters)
    → c.session ≤ max_u64
    → c.total ≤ max_u64
    → parse_lines
        ((codes "session=" ++ decimal c.session) ∷ (codes "total=" ++ decimal c.total) ∷ [])
        zero_counters
      ≡ some c
unfolding parse_lines
parse_lines-render c hs ht =
    rw (session_line c.session zero_counters hs)
      (rw (total_line c.total (record zero_counters { session = c.session }) ht) refl)

-- Counters that fit in a u64 are read back from the text that is written for them.
pub parse-render :
    (c : Counters) → c.session ≤ max_u64 → c.total ≤ max_u64 → parse (render c) ≡ some c
unfolding parse
parse-render c hs ht = rw (lines-render c) (parse_lines-render c hs ht)
