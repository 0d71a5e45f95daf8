-- ===== src/Bringup.antt =====
-- The bring-up policy of a transport: src/baler-core/src/bringup.rs.
pub mod Outcome
use claas_rollant.Prelude.{
  ℕ, zero, suc, ◌+◌, ◌-◌, Bool, true, false, leb, Option, none, some, Result, ok, err,
  if◌then◌else◌,
}

-- What the caller supplies. The closures change the world around the loop, of type `S`.
pub record Hooks (S T E : Type 0) : Type 0 where
  pub open_once : S → S × Result T E
  pub is_corrupted : E → Bool
  pub cleanup : S → S
  pub backoff : ℕ → S → S

module _ {S T E : Type 0} (k : Hooks S T E) where
  -- A failed attempt, up to the test for the last one.
  unfoldable pub cleaned : E → S → S
  cleaned e s = if k.is_corrupted e then k.cleanup s else s

  -- The loop from an attempt on; `none` means that the fuel ran out.
  unfoldable pub attempts : ℕ → ℕ → ℕ → S → Option (S × Result T E)
  attempts zero max_attempts attempt s = none
  attempts (suc fuel) max_attempts attempt s =
      let (s', r) = k.open_once s in
      elim r [
        | ok value ↦ some (s', ok value)
        | err e ↦
            let next =
              attempts fuel max_attempts (attempt + 1) (k.backoff attempt (cleaned e s')) in
            if leb max_attempts attempt then some (cleaned e s', err e) else next
      ]

  unfoldable pub retry_open : ℕ → S → Option (S × Result T E)
  unfolding attempts
  retry_open max_attempts s = attempts (suc max_attempts) max_attempts 1 s
