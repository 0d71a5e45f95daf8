-- ===== src/InputConditioner.antt =====
-- Debounce and edge detection: src/baler-core/src/input_conditioner.rs.
pub mod Invariant
pub mod Reference
use claas_rollant.Prelude.{
  ℕ, Bool, true, false, List, [], ◌∷◌, max, leb, same, sat_add_u8, if◌then◌else◌,
}

pub data Edge : Type 0 where
  no_edge rising falling : Edge

-- `threshold` and `count` are u8.
pub record Debouncer : Type 0 where
  pub threshold : ℕ
  pub level : Bool
  pub candidate : Bool
  pub count : ℕ

unfoldable pub new : ℕ → Bool → Debouncer
new threshold initial = record {
  threshold = max threshold 1;
  level = initial;
  candidate = initial;
  count = 0;
}

-- The sample counted: a first one for a new candidate, or one more for the same.
abbrev pub noted : Debouncer → Bool → Debouncer
noted d raw =
    if same raw d.candidate
    then record d { count = sat_add_u8 d.count 1 }
    else record d { candidate = raw; count = 1 }

abbrev pub edge_to : Bool → Edge
edge_to raw = if raw then rising else falling

-- The test for enough samples, after `noted`.
abbrev pub settle : Debouncer → Bool → Debouncer × Edge
settle d raw =
    if leb d.threshold d.count
    then (record d { level = raw; count = 0 }, edge_to raw)
    else (d, no_edge)

unfoldable pub update : Debouncer → Bool → Debouncer × Edge
update d raw =
    if same raw d.level
    then (record d { candidate = raw; count = 0 }, no_edge)
    else settle (noted d raw) raw

-- Samples are listed newest first.
unfoldable pub feed : Debouncer → List Bool → Debouncer
feed d [] = d
feed d (raw ∷ earlier) = (update (feed d earlier) raw).0
