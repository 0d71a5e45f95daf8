-- ===== src/Transport/Recovery.antt =====
-- The bounds of the recovery, and what draining a channel gives.
use claas_rollant.Prelude.{
  ℕ, zero, suc, ◌*◌, ◌≤◌, ◌<◌, ◌≡◌, sym, ap, ◌∙◌, List, [], ◌∷◌, ◌++◌, none, some, ok, from_millis,
  arith, length,
}
use mathlib.Core.List.{append_assoc, append-nil}
use claas_rollant.Transport.{backoff_for, MessageReader, drain_all, drain_latest}

-- The backoff grows with the attempts, by 50 ms each up to 500 ms, and is never longer.
pub backoff_for_bounds :
    (a b : ℕ)
    → a ≤ b
    → (backoff_for a ≤ backoff_for b)
      × (backoff_for b ≤ from_millis 500)
      × (a ≤ 10 → backoff_for a ≡ from_millis (a * 50))
unfolding backoff_for
backoff_for_bounds a b h = omega arith

module _ {M : Type 0} (ch : MessageReader M) where
  -- The reader gives the messages of a list, one by one, and then nothing more.
  abbrev pub Holds : ch.Reader → List M → Type 0
  Holds r [] = (r' : ch.Reader) × (ch.try_recv r ≡ (r', ok none))
  Holds r (m ∷ ms) = (r' : ch.Reader) × (ch.try_recv r ≡ (r', ok (some m))) × Holds r' ms

  drain_all_last :
      (fuel : ℕ) (r r' : ch.Reader) (out : List M)
      → ch.try_recv r ≡ (r', ok none)
      → drain_all ch (suc fuel) r out ≡ some (r', out)
  unfolding drain_all
  drain_all_last fuel r r' out e = ground arith

  drain_all_more :
      (fuel : ℕ) (r r' : ch.Reader) (m : M) (out : List M)
      → ch.try_recv r ≡ (r', ok (some m))
      → drain_all ch (suc fuel) r out ≡ drain_all ch fuel r' (out ++ m ∷ [])
  unfolding drain_all
  drain_all_more fuel r r' m out e = ground arith

  drain_all-append :
      (fuel : ℕ) (r : ch.Reader) (ms out : List M)
      → Holds r ms
      → length ms < fuel
      → (r' : ch.Reader) × (drain_all ch fuel r out ≡ some (r', out ++ ms))
  drain_all-append zero r ms out h l = absurd (omega arith)
  drain_all-append (suc fuel) r [] out (r', e) l = (
    r',
    drain_all_last fuel r r' out e ∙ ap (λ (x : List M). some (r', x)) (sym (append-nil out)),
  )
  drain_all-append (suc fuel) r (m ∷ ms) out (r', e, h) l =
      let (r'', q) = drain_all-append fuel r' ms (out ++ m ∷ []) h (omega arith) in
      (
        r'',
        drain_all_more fuel r r' m out e
            ∙ q
            ∙ ap (λ (x : List M). some (r'', x)) (append_assoc out (m ∷ []) ms),
      )

  -- If the reader gives the messages of a list and then nothing, a drain with more fuel than
  -- messages returns all of them, oldest first.
  pub drain_all_lem :
      (fuel : ℕ) (r : ch.Reader) (ms : List M)
      → Holds r ms
      → length ms < fuel
      → (r' : ch.Reader) × (drain_all ch fuel r [] ≡ some (r', ms))
  drain_all_lem fuel r ms h l = drain_all-append fuel r ms [] h l

  -- The newest of some messages after `last`.
  abbrev pub newest : M → List M → M
  newest last [] = last
  newest last (m ∷ ms) = newest m ms

  drain_latest_last :
      (fuel : ℕ) (r r' : ch.Reader) (last : M)
      → ch.try_recv r ≡ (r', ok none)
      → drain_latest ch (suc fuel) r last ≡ some (r', last)
  unfolding drain_latest
  drain_latest_last fuel r r' last e = ground arith

  drain_latest_more :
      (fuel : ℕ) (r r' : ch.Reader) (m last : M)
      → ch.try_recv r ≡ (r', ok (some m))
      → drain_latest ch (suc fuel) r last ≡ drain_latest ch fuel r' m
  unfolding drain_latest
  drain_latest_more fuel r r' m last e = ground arith

  -- The panel's step shows the newest pending message, or the last one seen if there is none.
  pub drain_latest_lem :
      (fuel : ℕ) (r : ch.Reader) (ms : List M) (last : M)
      → Holds r ms
      → length ms < fuel
      → (r' : ch.Reader) × (drain_latest ch fuel r last ≡ some (r', newest last ms))
  drain_latest_lem zero r ms last h l = absurd (omega arith)
  drain_latest_lem (suc fuel) r [] last (r', e) l = (r', drain_latest_last fuel r r' last e)
  drain_latest_lem (suc fuel) r (m ∷ ms) last (r', e, h) l =
      let (r'', q) = drain_latest_lem fuel r' ms m h (omega arith) in
      (r'', drain_latest_more fuel r r' m last e ∙ q)
