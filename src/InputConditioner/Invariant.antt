-- ===== src/InputConditioner/Invariant.antt =====
-- What holds of a debouncer between two samples.
use claas_rollant.Prelude.{ℕ, ◌≡◌, ◌≤◌, ◌<◌, ◌≢◌, Bool, true, false, arith}
use claas_rollant.InputConditioner.{Debouncer, Edge, no_edge, rising, falling, new, update}

pub record IsValid (d : Debouncer) : Type 0 where
  pub positive : 1 ≤ d.threshold
  pub byte : d.threshold ≤ 255
  pub pending : d.count < d.threshold
  pub opposite : 0 < d.count → d.candidate ≢ d.level

-- A new debouncer is valid, whatever threshold byte it is given.
pub new-IsValid : (t : ℕ) (l : Bool) → t ≤ 255 → IsValid (new t l)
unfolding new
new-IsValid t l h = ground arith

pub update-IsValid : (d : Debouncer) (raw : Bool) → IsValid d → IsValid (update d raw).0
unfolding update
update-IsValid d raw v = ground arith

-- The edge that a change of level makes.
abbrev pub edge_between : Bool → Bool → Edge
edge_between false true = rising
edge_between true false = falling
edge_between _ _ = no_edge

-- An edge is reported exactly when the level changes on that sample, in the direction of the change,
-- and the level can change only to the sample.
pub update-edge :
    (d : Debouncer) (raw : Bool)
    → ((update d raw).1 ≡ edge_between d.level (update d raw).0.level)
      × ((update d raw).0.level ≢ d.level → (update d raw).0.level ≡ raw)
unfolding update
update-edge d raw = ground arith
