-- ===== src/Prelude/Phases.antt =====
-- Calls that change a state, may fail, and may lack the fuel to end: `none`. Chained as `?` chains them.
use mathlib.Core.Option.{Option, none, some}
use mathlib.Core.Path.{◌≡◌, refl, subst}
use mathlib.Core.Bool.{true}
use claas_rollant.Prelude.Results.{Result, ok, err, is_some}
use claas_rollant.Prelude.Trials.{Trial}

abbrev pub Phase : Type 0 → Type 0 → Type 0 → Type 0
Phase S E A = S → Option (S × Result A E)

module _ {S E A B : Type 0} where
  unfoldable pub continue_with :
      (A → Phase S E B) → Option (S × Result A E) → Option (S × Result B E)
  continue_with k none = none
  continue_with k (some (s, ok a)) = k a s
  continue_with k (some (s, err e)) = some (s, err e)

  infixl 5 ◌>>=◌
  abbrev pub ◌>>=◌ : Phase S E A → (A → Phase S E B) → Phase S E B
  ◌>>=◌ m k s = continue_with k (m s)

module _ {S E F A : Type 0} where
  -- The `From` that `?` applies to an error.
  unfoldable pub from_err : (E → F) → Option (S × Result A E) → Option (S × Result A F)
  from_err f none = none
  from_err f (some (s, ok a)) = some (s, ok a)
  from_err f (some (s, err e)) = some (s, err (f e))

module _ {S T E A : Type 0} where
  unfoldable pub placed : S → (T → S → S) → Option (T × Result A E) → Option (S × Result A E)
  placed s put none = none
  placed s put (some (t, r)) = some (put t s, r)

  -- A phase on a part of the state.
  abbrev pub on_part : (S → T) → (T → S → S) → Phase T E A → Phase S E A
  on_part get put m s = placed s put (m (get s))

module _ {S E A : Type 0} where
  abbrev pub trial : Trial S E A → Phase S E A
  trial m s = some (m s)

-- The state a phase ends in, if it ends.
module _ {S E A : Type 0} where
  unfoldable pub Leaves : (S → Type 0) → Option (S × Result A E) → Type 0
  Leaves P none = Unit {0}
  Leaves P (some (s, r)) = P s

  pub Leaves-intro : (P : S → Type 0) (s : S) (r : Result A E) → P s → Leaves P (some (s, r))
  unfolding Leaves
  Leaves-intro P s r p = p

  pub Leaves-some :
      (P : S → Type 0) (o : Option (S × Result A E)) (s : S) (r : Result A E)
      → Leaves P o
      → o ≡ some (s, r)
      → P s
  unfolding Leaves
  Leaves-some P o s r h e = subst (Leaves P) e h

module _ {S E A B : Type 0} (P : S → Type 0) where
  pub continue_with-Leaves :
      (k : A → Phase S E B) (o : Option (S × Result A E))
      → ((a : A) (s : S) → P s → Leaves P (k a s))
      → Leaves P o
      → Leaves P (continue_with k o)
  unfolding Leaves continue_with
  continue_with-Leaves k none h p = tt
  continue_with-Leaves k (some (s, ok a)) h p = h a s p
  continue_with-Leaves k (some (s, err e)) h p = p

module _ {S E F A : Type 0} (P : S → Type 0) where
  pub from_err-Leaves :
      (f : E → F) (o : Option (S × Result A E)) → Leaves P o → Leaves P (from_err f o)
  unfolding Leaves from_err
  from_err-Leaves f none p = tt
  from_err-Leaves f (some (s, ok a)) p = p
  from_err-Leaves f (some (s, err e)) p = p

module _ {S T E A : Type 0} (P : S → Type 0) where
  pub placed-Leaves :
      (s : S) (put : T → S → S) (o : Option (T × Result A E))
      → ((t : T) → P (put t s))
      → Leaves P (placed s put o)
  unfolding Leaves placed
  placed-Leaves s put none h = tt
  placed-Leaves s put (some (t, r)) h = h t

-- Phases that end.
module _ {S E A B : Type 0} where
  pub continue_with-is_some :
      (k : A → Phase S E B) (o : Option (S × Result A E))
      → is_some o ≡ true
      → ((a : A) (s : S) → is_some (k a s) ≡ true)
      → is_some (continue_with k o) ≡ true
  unfolding continue_with
  continue_with-is_some k none p h = p
  continue_with-is_some k (some (s, ok a)) p h = h a s
  continue_with-is_some k (some (s, err e)) p h = refl

module _ {S E F A : Type 0} where
  pub from_err-is_some :
      (f : E → F) (o : Option (S × Result A E)) → is_some o ≡ true → is_some (from_err f o) ≡ true
  unfolding from_err
  from_err-is_some f none p = p
  from_err-is_some f (some (s, ok a)) p = refl
  from_err-is_some f (some (s, err e)) p = refl

module _ {S T E A : Type 0} where
  pub placed-is_some :
      (s : S) (put : T → S → S) (o : Option (T × Result A E))
      → is_some o ≡ true
      → is_some (placed s put o) ≡ true
  unfolding placed
  placed-is_some s put none p = p
  placed-is_some s put (some (t, r)) p = refl

-- The error a phase ends with, if it ends with one.
module _ {S E A : Type 0} (Q : E → Type 0) where
  unfoldable pub Errs : Option (S × Result A E) → Type 0
  Errs none = Unit {0}
  Errs (some (s, ok a)) = Unit {0}
  Errs (some (s, err e)) = Q e

  pub Errs-err : (o : Option (S × Result A E)) (s : S) (e : E) → Errs o → o ≡ some (s, err e) → Q e
  unfolding Errs
  Errs-err o s e h eq = subst Errs eq h

module _ {S E A B : Type 0} (Q : E → Type 0) where
  pub continue_with-Errs :
      (k : A → Phase S E B) (o : Option (S × Result A E))
      → ((a : A) (s : S) → Errs Q (k a s))
      → Errs Q o
      → Errs Q (continue_with k o)
  unfolding Errs continue_with
  continue_with-Errs k none h p = tt
  continue_with-Errs k (some (s, ok a)) h p = h a s
  continue_with-Errs k (some (s, err e)) h p = p

module _ {S E F A : Type 0} (Q : F → Type 0) where
  pub from_err-Errs :
      (f : E → F) (o : Option (S × Result A E)) → ((e : E) → Q (f e)) → Errs Q (from_err f o)
  unfolding Errs from_err
  from_err-Errs f none h = tt
  from_err-Errs f (some (s, ok a)) h = tt
  from_err-Errs f (some (s, err e)) h = h e
