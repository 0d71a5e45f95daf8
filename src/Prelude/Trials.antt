-- ===== src/Prelude/Trials.antt =====
-- Calls that change a state and may fail, chained as `?` chains them.
use claas_rollant.Prelude.Results.{Result, ok, err}

abbrev pub Trial : Type 0 → Type 0 → Type 0 → Type 0
Trial S E A = S → S × Result A E

module _ {S E A B : Type 0} where
  infixl 5 ◌>>=◌
  abbrev pub ◌>>=◌ : Trial S E A → (A → Trial S E B) → Trial S E B
  ◌>>=◌ m k s = let (s', r) = m s in elim r [ ok a ↦ k a s' | err e ↦ (s', err e) ]

module _ {S E F A : Type 0} where
  -- `map_err`, and the `From` that `?` applies to an error.
  abbrev pub map_err : (E → F) → Trial S E A → Trial S F A
  map_err f m s = let (s', r) = m s in elim r [ ok a ↦ (s', ok a) | err e ↦ (s', err (f e)) ]

module _ {S E A : Type 0} where
  abbrev pub return : A → Trial S E A
  return a s = (s, ok a)
