-- ===== src/Counter/Durability.antt =====
-- What is on the disk after `persist`, whether it succeeds, fails, or is cut off by a loss of power.
use claas_rollant.Prelude.{
  ◌<◌, Bool-cases, All, ◌++◌, ℕ, zero, suc, ◌≤◌, ◌≡◌, refl, ap, ◌≢◌, ◌⊎◌, inl, inr, true, false,
  List, [], ◌∷◌, Option, some, none, ok, is_ok, max_u64, arith,
}
use claas_rollant.Counter.Files.{FileSystem}
use claas_rollant.Counter.Format.{render, parse-render}
use claas_rollant.Counter.Store.{CounterStore, Io, ◌>>◌, make_parent, persist, loaded, load}

module _ (fs : FileSystem) (s : CounterStore fs)
    (apart : s.path ≢ fs.with_extension_tmp s.path) where
  open fs use {Disk, read_to_string}

  abbrev pub tmp : fs.FilePath
  tmp = fs.with_extension_tmp s.path

  -- The step leaves what the target file reads as.
  abbrev Keeps : Io fs (Unit {0}) → Type 0
  Keeps m = (d : Disk) → read_to_string (m d).0 s.path ≡ read_to_string d s.path

  -- The steps of `persist` before the rename.
  abbrev pub prepare : List (Io fs (Unit {0}))
  prepare =
      make_parent fs (fs.parent s.path)
      ∷ fs.create tmp
      ∷ fs.write_text tmp (render s.counters)
      ∷ fs.sync_all tmp
      ∷ []

  -- The first `n` steps of a list, each run if the one before succeeded.
  abbrev pub run_steps : ℕ → List (Io fs (Unit {0})) → Io fs (Unit {0})
  run_steps n [] d = (d, ok tt)
  run_steps zero (m ∷ ms) d = (d, ok tt)
  run_steps (suc n) (m ∷ ms) d = ◌>>◌ fs m (run_steps n ms) d

  make_parent-Keeps : (o : Option fs.FilePath) → fs.parent s.path ≡ o → Keeps (make_parent fs o)
  make_parent-Keeps none e d = refl
  make_parent-Keeps (some dir) e d = fs.create_dir_all_keeps d s.path dir e

  seq-Keeps : (m k : Io fs (Unit {0})) → Keeps m → Keeps k → Keeps (◌>>◌ fs m k)
  seq-Keeps m k hm hk d = ground (arith, hm d, hk (m d).0)

  run_steps-Keeps : (n : ℕ) (ms : List (Io fs (Unit {0}))) → All Keeps ms → Keeps (run_steps n ms)
  run_steps-Keeps n [] h d = refl
  run_steps-Keeps zero (m ∷ ms) h d = refl
  run_steps-Keeps (suc n) (m ∷ ms) h d =
      seq-Keeps m (run_steps n ms) h.0 (run_steps-Keeps n ms h.1) d

  prepare-Keeps : All Keeps prepare
  prepare-Keeps = (
    make_parent-Keeps (fs.parent s.path) refl,
    (
      λ d. fs.create_keeps d tmp s.path apart,
      (
        λ d. fs.write_keeps d tmp s.path (render s.counters) apart,
        (λ d. fs.sync_keeps d tmp s.path, tt),
      ),
    ),
  )

  -- The calls of `persist`, in order.
  abbrev pub steps : List (Io fs (Unit {0}))
  steps = prepare ++ fs.rename tmp s.path ∷ []

  -- Once the temporary file is written and synced it holds the new counters.
  prepared :
      (d : Disk)
      → is_ok (run_steps 4 prepare d).1 ≡ true
      → read_to_string (run_steps 4 prepare d).0 tmp ≡ ok (render s.counters)
  prepared d h =
      let d1 = (make_parent fs (fs.parent s.path) d).0 in
      let d2 = (fs.create tmp d1).0 in
      let d3 = (fs.write_text tmp (render s.counters) d2).0 in
      ground (
        arith,
        fs.create_empty d1 tmp,
        fs.write_appends d2 tmp [] (render s.counters),
        fs.sync_keeps d3 tmp tmp,
      )

  -- A call of `persist` that succeeds leaves the new counters in the file, and one that fails leaves
  -- the file as it was.
  pub persist_outcome :
      (d : Disk)
      → let (d', r) = persist fs s d in
        (is_ok r ≡ true → read_to_string d' s.path ≡ ok (render s.counters))
        × (is_ok r ≡ false → read_to_string d' s.path ≡ read_to_string d s.path)
  unfolding persist
  persist_outcome d =
      let front = (run_steps 4 prepare d).0 in
      ground (
        arith,
        run_steps-Keeps 4 prepare prepare-Keeps d,
        prepared d,
        fs.rename_replaces front tmp s.path,
        fs.rename_fails front tmp s.path,
      )

  abbrev pub Fits : Type 0
  Fits = (s.counters.session ≤ max_u64) × (s.counters.total ≤ max_u64)

  load-read :
      (d : Disk) → Fits → read_to_string d s.path ≡ ok (render s.counters) → load fs s.path d ≡ ok s
  unfolding load
  load-read d f e = rw (e, parse-render s.counters f.0 f.1) refl

  -- Counters that fit in a u64 and that a successful call wrote are loaded again from the disk as the
  -- call left it; the file and its temporary file are different paths.
  pub load-persist :
      (d : Disk) → Fits → is_ok (persist fs s d).1 ≡ true → load fs s.path (persist fs s d).0 ≡ ok s
  load-persist d f h = load-read (persist fs s d).0 f ((persist_outcome d).0 h)

  persist-run_steps :
      (n : ℕ) (d : Disk)
      → (run_steps (suc (suc (suc (suc (suc n))))) steps d).0 ≡ (persist fs s d).0
  unfolding persist
  persist-run_steps n d = ground arith

  prefix_keeps : (n : ℕ) (d : Disk) → n < 5 → run_steps n steps d ≡ run_steps n prepare d
  prefix_keeps zero d h = refl
  prefix_keeps (suc zero) d h = refl
  prefix_keeps (suc (suc zero)) d h = refl
  prefix_keeps (suc (suc (suc zero))) d h = refl
  prefix_keeps (suc (suc (suc (suc zero)))) d h = ground arith
  prefix_keeps (suc (suc (suc (suc (suc n))))) d h = absurd (omega arith)

  pub load_same :
      (d d' : Disk)
      → read_to_string d' s.path ≡ read_to_string d s.path
      → load fs s.path d' ≡ load fs s.path d
  unfolding load
  load_same d d' e = ap (loaded fs s.path) e

  early : (n : ℕ) (d : Disk) → n < 5 → load fs s.path (run_steps n steps d).0 ≡ load fs s.path d
  early n d h = rw (prefix_keeps n d h) (load_same d _ (run_steps-Keeps n prepare prepare-Keeps d))

  finished :
      (d : Disk)
      → Fits
      → let d' = (persist fs s d).0 in
        (load fs s.path d' ≡ load fs s.path d) ⊎ (load fs s.path d' ≡ ok s)
  finished d f = elim (Bool-cases (is_ok (persist fs s d).1)) [
    | inl h ↦ inr (load-persist d f h)
    | inr h ↦ inl (load_same d (persist fs s d).0 ((persist_outcome d).1 h))
  ]

  all_steps : (n : ℕ) (d : Disk) → 5 ≤ n → run_steps n steps d ≡ persist fs s d
  unfolding persist
  all_steps (suc (suc (suc (suc (suc n))))) d h = ground arith
  all_steps n d h = absurd (omega arith)

  interrupted :
      (n : ℕ) (d : Disk)
      → Fits
      → let d' = (run_steps n steps d).0 in
        (load fs s.path d' ≡ load fs s.path d) ⊎ (load fs s.path d' ≡ ok s)
  interrupted (suc (suc (suc (suc (suc n))))) d f = rw (persist-run_steps n d) (finished d f)
  interrupted n d f = inl (early n d (omega arith))

  -- If the power fails after any number of the calls of `persist`, the next load gives the old
  -- counters or the new ones; five calls or more are the whole of `persist`. The file and its temporary
  -- file are different paths, and the counters fit in a u64.
  pub persist_atomic :
      (n : ℕ) (d : Disk)
      → Fits
      → let d' = (run_steps n steps d).0 in
        ((load fs s.path d' ≡ load fs s.path d) ⊎ (load fs s.path d' ≡ ok s))
        × (5 ≤ n → run_steps n steps d ≡ persist fs s d)
  persist_atomic n d f = (interrupted n d f, all_steps n d)
