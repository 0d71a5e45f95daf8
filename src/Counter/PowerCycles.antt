-- ===== src/Counter/PowerCycles.antt =====
-- The counters over the life of the device: changes whose persist succeeds, fails, or is cut off by a
-- loss of power, after which the daemon starts again and loads the file.
use claas_rollant.Prelude.{
  sym, subst, ℕ, ◌≡◌, ◌≢◌, refl, ap, ◌∙◌, ◌⊎◌, inl, inr, Bool-cases, List, [], ◌∷◌, ok, err, is_ok,
  Bool, true, false, Result, arith,
}
use claas_rollant.Counter.Files.{FileSystem, ReadError}
use claas_rollant.Counter.Format.{Counters}
use claas_rollant.Counter.Store.{
  CounterStore, persist, load, increment_bale, adjust_session, reset_session, reset_total,
}
use claas_rollant.Counter.Changes.{Fits}
use claas_rollant.Counter.Durability.{
  run_steps, steps, persist_outcome, persist_atomic, load-persist, load_same,
}
use claas_rollant.Counter.Shadow.{
  Change, bale, clear_session, clear_total, correct, apply, apply-Fits, Event, change_to, cut_off,
  Shadow, Lives, saved, unsaved, kept, lost, LivesAll, born, onward,
}

module _ (fs : FileSystem) (path : fs.FilePath) (apart : path ≢ fs.with_extension_tmp path) where
  open fs use {Disk}

  pub record Device : Type 0 where
    pub counters : Counters
    pub disk : Disk

  -- The store with some counters.
  abbrev pub with_counters : Counters → CounterStore fs
  with_counters c = record { path = path; counters = c }

  abbrev pub method :
      Change → CounterStore fs → Disk → CounterStore fs × Disk × Result (Unit {0}) fs.IoError
  method bale s d = increment_bale fs s d
  method (correct delta) s d = adjust_session fs delta s d
  method clear_session s d = reset_session fs s d
  method clear_total s d = reset_total fs s d

  abbrev pub reboot : Disk → Result (CounterStore fs) ReadError → Result Device ReadError
  reboot d (ok s) = ok (record { counters = s.counters; disk = d })
  reboot d (err e) = err e

  -- An event: an error of `persist` is dropped, as the control cycle does.
  unfoldable pub next : Event → Device → Result Device ReadError
  next (change_to ch) v =
      let (s, d, r) = method ch (with_counters v.counters) v.disk in
      ok (record { counters = s.counters; disk = d })
  next (cut_off ch n) v =
      let s = with_counters (apply ch v.counters) in
      let d = (run_steps fs s apart n (steps fs s apart) v.disk).0 in reboot d (load fs path d)

  unfoldable pub life : List Event → Device → Result Device ReadError
  life [] v = ok v
  life (ev ∷ evs) v = elim (next ev v) [ ok v' ↦ life evs v' | err e ↦ err e ]

  abbrev change_of : Event → Change
  change_of (change_to ch) = ch
  change_of (cut_off ch n) = ch

  -- The disk takes all the file-system calls of an event's change, one after the other: the directory, the
  -- temporary file with the changed counters, its sync, and the rename.
  abbrev pub disk_takes : Event → Device → Bool
  disk_takes ev v =
      let s = with_counters (apply (change_of ev) v.counters) in
      is_ok (run_steps fs s apart 5 (steps fs s apart) v.disk).1

  -- Event by event, whether the disk takes its change.
  unfoldable pub disk_log : List Event → Device → List Bool
  disk_log [] v = []
  disk_log (ev ∷ evs) v =
      disk_takes ev v ∷ (elim (next ev v) [ ok v' ↦ disk_log evs v' | err e ↦ [] ])

  -- What a device shows: its counters, and the file that is loaded.
  pub record Shows (v : Device) (s : Shadow) : Type 0 where
    pub held : v.counters ≡ s.memory
    pub written : load fs path v.disk ≡ ok (with_counters s.durable)
    pub memory_fits : Fits s.memory
    pub durable_fits : Fits s.durable

  method_lem :
      (ch : Change) (c : Counters) (d : Disk)
      → let (s, d', r) = method ch (with_counters c) d in
        (s.counters ≡ apply ch c) × (d' ≡ (persist fs (with_counters (apply ch c)) d).0)
  unfolding increment_bale adjust_session reset_session reset_total
  method_lem ch c d = ground arith

  -- What the file says after a change: it is the new counters if the disk takes all the calls, and as
  -- before if it does not.
  written_after :
      (c : Counters) (old : Counters) (d : Disk)
      → Fits c
      → load fs path d ≡ ok (with_counters old)
      → let d' = (persist fs (with_counters c) d).0 in
        let takes =
          is_ok (run_steps fs (with_counters c) apart 5 (steps fs (with_counters c) apart) d).1 in
        ((takes ≡ true) × (load fs path d' ≡ ok (with_counters c)))
        ⊎ ((takes ≡ false) × (load fs path d' ≡ ok (with_counters old)))
  written_after c old d f l =
      let s = with_counters c in
      let calls = (persist_atomic fs s apart 5 d (f.session_fits, f.total_fits)).1 (omega arith) in
      elim (Bool-cases (is_ok (persist fs s d).1)) [
        | inl h ↦ inl (
          ap (λ r. is_ok r.1) calls ∙ h,
          load-persist fs s apart d (f.session_fits, f.total_fits) h,
        )
        | inr h ↦ inr (
          ap (λ r. is_ok r.1) calls ∙ h,
          load_same fs s apart d (persist fs s d).0 ((persist_outcome fs s apart d).1 h) ∙ l,
        )
      ]

  -- An event of the device, with what it may do to what the device shows.
  abbrev Simulates : Device → Shadow → Event → Type 0
  Simulates v s ev =
      (v' : Device) × (s' : Shadow) × (next ev v ≡ ok v')
      × Lives s ev (disk_takes ev v) s'
      × Shows v' s'

  change-Simulates :
      (ch : Change) (v : Device) (s : Shadow) → Shows v s → Simulates v s (change_to ch)
  unfolding next
  change-Simulates ch v s h =
      let c = apply ch v.counters in
      let (new_counters, disk) = method_lem ch v.counters v.disk in
      let fits = apply-Fits ch s.memory h.memory_fits in
      let (store, d, r) = method ch (with_counters v.counters) v.disk in
      let now : Counters = apply ch s.memory in
      let same : c ≡ now = ap (apply ch) h.held in
      let new_fits = subst Fits (sym same) fits in
      let moved = ap (load fs path) disk in
      elim (written_after c s.durable v.disk new_fits h.written) [
        | inl (taken, w) ↦
            let s' : Shadow = record { memory = now; durable = now } in
            (
              record { counters = store.counters; disk = d },
              s',
              refl,
              saved taken refl refl,
              record {
                held = new_counters ∙ same;
                written = moved ∙ w ∙ ap (λ x. ok (with_counters x)) same;
                memory_fits = fits;
                durable_fits = fits;
              },
            )
        | inr (refused, w) ↦
            let s' : Shadow = record { memory = now; durable = s.durable } in
            (
              record { counters = store.counters; disk = d },
              s',
              refl,
              unsaved refused refl refl,
              record {
                held = new_counters ∙ same;
                written = moved ∙ w;
                memory_fits = fits;
                durable_fits = h.durable_fits;
              },
            )
      ]

  cut-Simulates :
      (ch : Change) (n : ℕ) (v : Device) (s : Shadow) → Shows v s → Simulates v s (cut_off ch n)
  unfolding next
  cut-Simulates ch n v s h =
      let c = apply ch v.counters in
      let now : Counters = apply ch s.memory in
      let fits = apply-Fits ch s.memory h.memory_fits in
      let same : c ≡ now = ap (apply ch) h.held in
      let new_fits = subst Fits (sym same) fits in
      let st = with_counters c in
      let d = (run_steps fs st apart n (steps fs st apart) v.disk).0 in
      elim (persist_atomic fs st apart n v.disk (new_fits.session_fits, new_fits.total_fits)).0 [
        | inl w ↦ (
          record { counters = s.durable; disk = d },
          record { memory = s.durable; durable = s.durable },
          ap (reboot d) (w ∙ h.written),
          lost refl refl,
          record {
            held = refl;
            written = w ∙ h.written;
            memory_fits = h.durable_fits;
            durable_fits = h.durable_fits;
          },
        )
        | inr w ↦
            let loaded = w ∙ ap (λ x. ok (with_counters x)) same in
            (
              record { counters = now; disk = d },
              record { memory = now; durable = now },
              ap (reboot d) loaded,
              kept refl refl,
              record { held = refl; written = loaded; memory_fits = fits; durable_fits = fits },
            )
      ]

  simulates : (ev : Event) (v : Device) (s : Shadow) → Shows v s → Simulates v s ev
  simulates (change_to ch) v s h = change-Simulates ch v s h
  simulates (cut_off ch n) v s h = cut-Simulates ch n v s h

  -- Over any life of the device, from a file that loads: the daemon starts again after every loss of
  -- power, and what it holds and what the file says go, event by event, as the rules of `Lives` allow:
  -- a change is saved if the disk takes all of its calls, and held in memory only if it does not, and a
  -- change that is cut off is in the file as a whole or not at all.
  pub life_refines :
      (evs : List Event) (v : Device) (s : Shadow)
      → Shows v s
      → (v' : Device) × (s' : Shadow) × (life evs v ≡ ok v')
        × LivesAll s evs (disk_log evs v) s'
        × Shows v' s'
  unfolding life disk_log
  life_refines [] v s h = (v, s, refl, born, h)
  life_refines (ev ∷ evs) v s h =
      let (v1, s1, run, lived, shows) = simulates ev v s h in
      let (v2, s2, rest, lived_on, shows_on) = life_refines evs v1 s1 shows in
      (v2, s2, rw (run, life) rest, rw run (onward lived lived_on), shows_on)
