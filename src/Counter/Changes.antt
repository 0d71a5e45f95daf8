-- ===== src/Counter/Changes.antt =====
-- What each change of the counters does to their values.
use claas_rollant.Prelude.{
  ◌≤◌, ◌≡◌, ℤ, List, [], ◌∷◌, some, inl, inr, Option-cases, unwrap_or, Result, ok, err, max_u64,
  arith,
}
use claas_rollant.Prelude.Text.{Text, lines, trim, split_once, parse_u64, parse_u64-le}
use claas_rollant.Counter.Files.{FileSystem, ReadError, not_found, other_error}
use claas_rollant.Counter.Format.{Counters, zero_counters, parse, parse_line, parse_lines}
use claas_rollant.Counter.Store.{
  CounterStore, bump, adjusted, session_cleared, total_cleared, load, loaded,
}

-- Both counters fit in a u64.
pub record Fits (c : Counters) : Type 0 where
  pub session_fits : c.session ≤ max_u64
  pub total_fits : c.total ≤ max_u64

pub bump-Fits : (c : Counters) → Fits c → Fits (bump c)
unfolding bump
bump-Fits c f = ground arith

pub adjusted-Fits : (delta : ℤ) (c : Counters) → Fits c → Fits (adjusted delta c)
unfolding adjusted
adjusted-Fits delta c f = ground arith

pub session_cleared-Fits : (c : Counters) → Fits c → Fits (session_cleared c)
unfolding session_cleared
session_cleared-Fits c f = ground arith

pub total_cleared-Fits : (c : Counters) → Fits c → Fits (total_cleared c)
unfolding total_cleared
total_cleared-Fits c f = ground arith

parse_line-Fits :
    (line : Text) (c : Counters) {c' : Counters} → Fits c → parse_line line c ≡ some c' → Fits c'
unfolding parse_line
parse_line-Fits line c {c'} f e = elim (Option-cases (split_once b'=' line)) [
  | inl p ↦ ground arith
  | inr ((k, v), p) ↦ elim (Option-cases (parse_u64 (trim v))) [
    | inl q ↦ ground arith
    | inr (n, q) ↦ ground (arith, parse_u64-le (trim v) q)
  ]
]

parse_lines-Fits :
    (ls : List Text) (c : Counters) {c' : Counters} → Fits c → parse_lines ls c ≡ some c' → Fits c'
unfolding parse_lines
parse_lines-Fits [] c f e = ground arith
parse_lines-Fits (l ∷ ls) c {c'} f e = elim (Option-cases (parse_line l c)) [
  | inl p ↦ ground arith
  | inr (d, p) ↦ parse_lines-Fits ls d (parse_line-Fits l c f p) (ground arith)
]

parse-Fits : (t : Text) → Fits (unwrap_or (parse t) zero_counters)
unfolding parse
parse-Fits t = elim (Option-cases (parse_lines (lines t) zero_counters)) [
  | inl p ↦ rw p (omega arith)
  | inr (d, p) ↦ rw p (parse_lines-Fits (lines t) zero_counters (omega arith) p)
]

-- Counters that are loaded fit in a u64, whatever the file holds.
pub load-Fits :
    (fs : FileSystem) (path : fs.FilePath) (disk : fs.Disk) {store : CounterStore fs}
    → load fs path disk ≡ ok store
    → Fits store.counters
unfolding load
load-Fits fs path disk {store} e = split (fs.read_to_string disk path) e
  where
    split : (r : Result Text ReadError) → loaded fs path r ≡ ok store → Fits store.counters
    split (ok t) e = ground (arith, parse-Fits t)
    split (err not_found) e = ground arith
    split (err other_error) e = cc
