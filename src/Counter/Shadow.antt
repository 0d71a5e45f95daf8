-- ===== src/Counter/Shadow.antt =====
-- What may become of the counters in memory and in the file, as an abstract pair: the rules for changes,
-- failed persists and losses of power.
use claas_rollant.Prelude.{Bool, true, false, ℕ, ◌≡◌, List, [], ◌∷◌, ℤ}
use claas_rollant.Counter.Format.{Counters}
use claas_rollant.Counter.Store.{bump, adjusted, session_cleared, total_cleared}
use claas_rollant.Counter.Changes.{
  Fits, bump-Fits, adjusted-Fits, session_cleared-Fits, total_cleared-Fits,
}

-- The four changes that the daemon makes.
pub data Change : Type 0 where
  bale clear_session clear_total : Change
  correct : ℤ → Change

abbrev pub apply : Change → Counters → Counters
apply bale c = bump c
apply (correct delta) c = adjusted delta c
apply clear_session c = session_cleared c
apply clear_total c = total_cleared c

pub apply-Fits : (ch : Change) (c : Counters) → Fits c → Fits (apply ch c)
apply-Fits bale c f = bump-Fits c f
apply-Fits (correct delta) c f = adjusted-Fits delta c f
apply-Fits clear_session c f = session_cleared-Fits c f
apply-Fits clear_total c f = total_cleared-Fits c f

-- A change, or a change whose persist loses power after some of its calls, and the start after it.
pub data Event : Type 0 where
  change_to : Change → Event
  cut_off : Change → ℕ → Event

-- What the daemon holds and what the file says.
pub record Shadow : Type 0 where
  pub memory : Counters
  pub durable : Counters

-- What an event may do, where the Boolean says whether the disk takes all the calls of its change: a change
-- that the disk takes is saved, and one that it refuses is held in memory only; a change that is cut off
-- is on the disk as a whole or not at all, and the daemon goes on with what is there.
pub data Lives : Shadow → Event → Bool → Shadow → Type 0 where
  saved :
      {s t : Shadow} {ch : Change} {takes : Bool}
      → takes ≡ true
      → t.memory ≡ apply ch s.memory
      → t.durable ≡ apply ch s.memory
      → Lives s (change_to ch) takes t
  unsaved :
      {s t : Shadow} {ch : Change} {takes : Bool}
      → takes ≡ false
      → t.memory ≡ apply ch s.memory
      → t.durable ≡ s.durable
      → Lives s (change_to ch) takes t
  kept :
      {s t : Shadow} {ch : Change} {n : ℕ} {takes : Bool}
      → t.memory ≡ apply ch s.memory
      → t.durable ≡ apply ch s.memory
      → Lives s (cut_off ch n) takes t
  lost :
      {s t : Shadow} {ch : Change} {n : ℕ} {takes : Bool}
      → t.memory ≡ s.durable
      → t.durable ≡ s.durable
      → Lives s (cut_off ch n) takes t

pub data LivesAll : Shadow → List Event → List Bool → Shadow → Type 0 where
  born : {s : Shadow} → LivesAll s [] [] s
  onward :
      {s t u : Shadow} {ev : Event} {evs : List Event} {takes : Bool} {rest : List Bool}
      → Lives s ev takes t
      → LivesAll t evs rest u
      → LivesAll s (ev ∷ evs) (takes ∷ rest) u
