-- ===== src/InputConditioner/Reference.antt =====
-- A debounced level described by the whole history of samples, and the proof that the counter-based
-- code computes it. Histories are listed newest first.
use claas_rollant.Prelude.{
  ℕ, zero, suc, ap, ◌∙◌, ◌≡◌, refl, sym, ◌≤◌, ◌<◌, Bool, true, false, not, arith, List, [], ◌∷◌,
  ◌++◌, max, leb, same, if◌then◌else◌, replicate,
}
use claas_rollant.InputConditioner.{Debouncer, new, update, feed}
use claas_rollant.InputConditioner.Invariant.{IsValid, new-IsValid, update-IsValid}

-- How many of the newest samples are `b`, up to the first other one.
unfoldable pub streak : Bool → List Bool → ℕ
streak b [] = 0
streak b (x ∷ xs) = let rest = streak b xs in if same x b then suc rest else 0

-- The level after a history: the newest sample, once the last `t` samples agree on it; else as before.
pub debounced : ℕ → Bool → List Bool → Bool
debounced t initial [] = initial
debounced t initial (x ∷ xs) =
    let before = debounced t initial xs in if leb t (streak x (x ∷ xs)) then x else before

-- The code's counter is the streak against the level.
pub record Tracks (t : ℕ) (initial : Bool) (xs : List Bool) (d : Debouncer) : Type 0 where
  pub valid : IsValid d
  pub threshold_eq : d.threshold ≡ max t 1
  pub level_eq : d.level ≡ debounced (max t 1) initial xs
  pub count_eq : d.count ≡ streak (not d.level) xs

Tracks-update :
    (t : ℕ) (initial x : Bool) (xs : List Bool) (d : Debouncer)
    → Tracks t initial xs d
    → Tracks t initial (x ∷ xs) (update d x).0
unfolding update streak debounced
Tracks-update t initial true xs d k = ground (arith, update-IsValid d true)
Tracks-update t initial false xs d k = ground (arith, update-IsValid d false)

pub feed-Tracks :
    (t : ℕ) (initial : Bool) (xs : List Bool)
    → t ≤ 255
    → Tracks t initial xs (feed (new t initial) xs)
unfolding feed new streak debounced
feed-Tracks t initial [] h = record {
  valid = new-IsValid t initial h;
  threshold_eq = refl;
  level_eq = refl;
  count_eq = refl;
}
feed-Tracks t initial (x ∷ xs) h =
    Tracks-update t initial x xs (feed (new t initial) xs) (feed-Tracks t initial xs h)

-- For a threshold byte and any samples, the level is the reference level: it is the newest sample
-- once the last `max t 1` samples agree, and otherwise what it was a sample before.
pub level-feed :
    (t : ℕ) (initial : Bool) (xs : List Bool)
    → t ≤ 255
    → (feed (new t initial) xs).level ≡ debounced (max t 1) initial xs
level-feed t initial xs h = (feed-Tracks t initial xs h).level_eq

streak-replicate : (n : ℕ) (b : Bool) (xs : List Bool) → n ≤ streak b (replicate n b ++ xs)
unfolding streak
streak-replicate zero b xs = omega arith
streak-replicate (suc n) true xs = omega (arith, streak-replicate n true xs)
streak-replicate (suc n) false xs = omega (arith, streak-replicate n false xs)

debounced_settled :
    (t : ℕ) (initial b : Bool) (xs : List Bool)
    → 1 ≤ t
    → t ≤ streak b xs
    → debounced t initial xs ≡ b
unfolding streak debounced
debounced_settled t initial b [] p h = absurd (omega arith)
debounced_settled t initial true (x ∷ xs) p h = ground arith
debounced_settled t initial false (x ∷ xs) p h = ground arith

-- A sample held for the threshold is accepted, whatever came before.
pub level_held :
    (t : ℕ) (initial b : Bool) (xs : List Bool)
    → t ≤ 255
    → (feed (new t initial) (replicate (max t 1) b ++ xs)).level ≡ b
level_held t initial b xs h =
    level-feed t initial (replicate (max t 1) b ++ xs) h
    ∙ debounced_settled (max t 1) initial b (replicate (max t 1) b ++ xs) (omega arith)
        (streak-replicate (max t 1) b xs)

streak-replicate_not :
    (n : ℕ) (b : Bool) (xs : List Bool) → streak b xs ≡ 0 → streak b (replicate n b ++ xs) ≡ n
unfolding streak
streak-replicate_not zero b xs h = h
streak-replicate_not (suc n) true xs h = ap suc (streak-replicate_not n true xs h)
streak-replicate_not (suc n) false xs h = ap suc (streak-replicate_not n false xs h)

debounced_glitch :
    (t n : ℕ) (initial b : Bool) (xs : List Bool)
    → streak b xs ≡ 0
    → n < t
    → debounced t initial (replicate n b ++ xs) ≡ debounced t initial xs
unfolding debounced streak
debounced_glitch t zero initial b xs h p = refl
debounced_glitch t (suc n) initial true xs h p =
    ground (
      arith,
      streak-replicate_not n true xs h,
      debounced_glitch t n initial true xs h (omega arith),
    )
debounced_glitch t (suc n) initial false xs h p = ground (
  arith,
  streak-replicate_not n false xs h,
  debounced_glitch t n initial false xs h (omega arith),
)

-- For a threshold byte, a glitch of fewer equal samples than the threshold, after another sample or
-- at the start, changes no level.
pub level_glitch :
    (t n : ℕ) (initial b : Bool) (xs : List Bool)
    → t ≤ 255
    → streak b xs ≡ 0
    → n < t
    → (feed (new t initial) (replicate n b ++ xs)).level ≡ (feed (new t initial) xs).level
level_glitch t n initial b xs h q p =
    level-feed t initial (replicate n b ++ xs) h
    ∙ debounced_glitch (max t 1) n initial b xs q (omega arith)
    ∙ sym (level-feed t initial xs h)
