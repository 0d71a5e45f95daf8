-- ===== src/Bringup/Outcome.antt =====
-- What `retry_open` returns, and what it does to the world on the way.
use claas_rollant.Prelude.{
  ℕ, zero, suc, ◌∙◌, ◌+◌, ◌≤◌, ◌<◌, ◌≡◌, refl, max, true, false, leb, some, Result, ok, err, is_ok,
  arith, Result-cases, inl, inr, Bool-cases,
}
use claas_rollant.Bringup.{Hooks, cleaned, attempts, retry_open}

module _ {S T E : Type 0} (k : Hooks S T E) where
  -- A corruption is cleaned up after, any other error is not.
  abbrev pub tidied : E → S → S
  tidied e s = elim (k.is_corrupted e) [ true ↦ k.cleanup s | false ↦ s ]

  cleaned_lem : (e : E) (s : S) → cleaned k e s ≡ tidied e s
  unfolding cleaned
  cleaned_lem e s = ground arith

  -- The world after failed attempt number `a`, with its cleanup and its backoff.
  unfoldable pub after_failure : ℕ → S → S
  after_failure a s =
      let (s', r) = k.open_once s in elim r [ ok value ↦ s' | err e ↦ k.backoff a (tidied e s') ]

  -- The world after `n` failed attempts, the first of them number `a`.
  unfoldable pub after_failures : ℕ → ℕ → S → S
  after_failures a zero s = s
  after_failures a (suc n) s = after_failures (a + 1) n (after_failure a s)

  -- `n` attempts in a row fail, the first of them number `a`.
  abbrev pub Fails : ℕ → ℕ → S → Type 0
  Fails a zero s = Unit {0}
  Fails a (suc n) s = (is_ok (k.open_once s).1 ≡ false) × Fails (a + 1) n (after_failure a s)

  attempts_retry :
      (fuel m a : ℕ) (s : S)
      → a < m
      → is_ok (k.open_once s).1 ≡ false
      → attempts k (suc fuel) m a s ≡ attempts k fuel m (a + 1) (after_failure a s)
  unfolding attempts after_failure cleaned
  attempts_retry fuel m a s h f = ground arith

  attempts-ok :
      (n fuel m a : ℕ) (s s' : S) (v : T)
      → n < fuel
      → a + n ≤ max m 1
      → 1 ≤ a
      → Fails a n s
      → k.open_once (after_failures a n s) ≡ (s', ok v)
      → attempts k fuel m a s ≡ some (s', ok v)
  unfolding attempts after_failures cleaned
  attempts-ok n zero m a s s' v p q l f o = absurd (omega arith)
  attempts-ok zero (suc fuel) m a s s' v p q l f o = ground arith
  attempts-ok (suc n) (suc fuel) m a s s' v p q l f o =
      attempts_retry fuel m a s (omega arith) f.0
      ∙ attempts-ok n fuel m (a + 1) (after_failure a s) s' v (omega arith) (omega arith)
          (omega arith) f.1 o

  attempts-err :
      (n fuel m a : ℕ) (s s' : S) (e : E)
      → n < fuel
      → a + n ≡ max m 1
      → 1 ≤ a
      → Fails a n s
      → k.open_once (after_failures a n s) ≡ (s', err e)
      → attempts k fuel m a s ≡ some (tidied e s', err e)
  unfolding attempts after_failures cleaned
  attempts-err n zero m a s s' e p q l f o = absurd (omega arith)
  attempts-err zero (suc fuel) m a s s' e p q l f o = ground arith
  attempts-err (suc n) (suc fuel) m a s s' e p q l f o =
      attempts_retry fuel m a s (omega arith) f.0
      ∙ attempts-err n fuel m (a + 1) (after_failure a s) s' e (omega arith) (omega arith)
          (omega arith) f.1 o

  -- If the first `n` attempts fail and the next one, still within `max_attempts`, opens the resource,
  -- that value is returned; the world saw, in order, the cleanup of each of the `n` failures that is a
  -- corruption and the backoff of each, and nothing after the success.
  pub retry_open_recovers :
      (n max_attempts : ℕ) (s s' : S) (v : T)
      → n < max max_attempts 1
      → Fails 1 n s
      → k.open_once (after_failures 1 n s) ≡ (s', ok v)
      → retry_open k max_attempts s ≡ some (s', ok v)
  unfolding retry_open
  retry_open_recovers n m s s' v h f o =
      attempts-ok n (suc m) m 1 s s' v (omega arith) (omega arith) (omega arith) f o

  -- If all of the `max max_attempts 1` attempts fail, the last error is returned; the world saw, in order,
  -- the cleanup of each failure that is a corruption, the last one included, and the backoff of each but
  -- the last.
  pub retry_open_gives_up :
      (n max_attempts : ℕ) (s s' : S) (e : E)
      → suc n ≡ max max_attempts 1
      → Fails 1 n s
      → k.open_once (after_failures 1 n s) ≡ (s', err e)
      → retry_open k max_attempts s ≡ some (tidied e s', err e)
  unfolding retry_open
  retry_open_gives_up n m s s' e h f o =
      attempts-err n (suc m) m 1 s s' e (omega arith) (omega arith) (omega arith) f o

  attempts_total :
      (fuel m a : ℕ) (s : S)
      → max m 1 < a + fuel
      → a ≤ max m 1
      → (r : S × Result T E) × (attempts k fuel m a s ≡ some r)
  unfolding attempts
  attempts_total zero m a s h l = absurd (omega arith)
  attempts_total (suc fuel) m a s h l = elim (Result-cases (k.open_once s).1) [
    | inl (v, e) ↦ (((k.open_once s).0, ok v), ground arith)
    | inr (x, e) ↦ elim (Bool-cases (leb m a)) [
      | inl done ↦ ((cleaned k x (k.open_once s).0, err x), ground arith)
      | inr more ↦
          let (r, q) =
            attempts_total fuel m (a + 1) (after_failure a s) (omega arith) (ground arith) in
          (r, attempts_retry fuel m a s (ground arith) (rw e refl) ∙ q)
    ]
  ]

  -- The loop ends within its fuel, for every number of attempts and every behaviour of the hooks.
  pub retry_open_total :
      (max_attempts : ℕ) (s : S) → (r : S × Result T E) × (retry_open k max_attempts s ≡ some r)
  unfolding retry_open
  retry_open_total m s = attempts_total (suc m) m 1 s (omega arith) (omega arith)
