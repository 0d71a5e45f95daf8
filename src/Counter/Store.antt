-- ===== src/Counter/Store.antt =====
-- The store: `CounterStore` and its methods, over a file system.
use claas_rollant.Prelude.{
  Option, none, some, Result, ok, err, ℤ, sat_add_u64, sat_add_signed, unwrap_or,
}
use claas_rollant.Prelude.Text.{Text}
use claas_rollant.Counter.Files.{FileSystem, ReadError, not_found, other_error}
use claas_rollant.Counter.Format.{Counters, zero_counters, parse, render}

-- The changes of the counters, without the disk.
unfoldable pub bump : Counters → Counters
bump c = record { session = sat_add_u64 c.session 1; total = sat_add_u64 c.total 1 }

unfoldable pub adjusted : ℤ → Counters → Counters
adjusted delta c = record c { session = sat_add_signed c.session delta }

unfoldable pub session_cleared : Counters → Counters
session_cleared c = record c { session = 0 }

unfoldable pub total_cleared : Counters → Counters
total_cleared c = record c { total = 0 }

module _ (fs : FileSystem) where
  open fs use {Disk, FilePath, IoError}

  pub record CounterStore : Type 0 where
    pub path : FilePath
    pub counters : Counters

  -- A call on the disk that may fail; `?` is the bind.
  abbrev pub Io : Type 0 → Type 0
  Io A = Disk → Disk × Result A IoError

  infixl 5 ◌>>◌
  abbrev pub ◌>>◌ : Io (Unit {0}) → Io (Unit {0}) → Io (Unit {0})
  ◌>>◌ m k d = let (d', r) = m d in elim r [ ok u ↦ k d' | err e ↦ (d', err e) ]

  abbrev pub make_parent : Option FilePath → Io (Unit {0})
  make_parent none d = (d, ok tt)
  make_parent (some dir) d = fs.create_dir_all dir d

  unfoldable pub persist : CounterStore → Io (Unit {0})
  persist s = do
    make_parent (fs.parent s.path)
    fs.create (fs.with_extension_tmp s.path)
    fs.write_text (fs.with_extension_tmp s.path) (render s.counters)
    fs.sync_all (fs.with_extension_tmp s.path)
    fs.rename (fs.with_extension_tmp s.path) s.path

  abbrev pub loaded : FilePath → Result Text ReadError → Result CounterStore ReadError
  loaded p (ok t) = ok (record { path = p; counters = unwrap_or (parse t) zero_counters })
  loaded p (err not_found) = ok (record { path = p; counters = zero_counters })
  loaded p (err other_error) = err other_error

  unfoldable pub load : FilePath → Disk → Result CounterStore ReadError
  load p d = loaded p (fs.read_to_string d p)

  -- A method: the new counters are kept in memory whether or not they reach the disk.
  abbrev pub change :
      (Counters → Counters) → CounterStore → Disk → CounterStore × Disk × Result (Unit {0}) IoError
  change f s d =
      let s' : CounterStore = record s { counters = f s.counters } in
      let (d', r) = persist s' d in (s', d', r)

  unfoldable pub increment_bale :
      CounterStore → Disk → CounterStore × Disk × Result (Unit {0}) IoError
  increment_bale s d = change bump s d

  unfoldable pub adjust_session :
      ℤ → CounterStore → Disk → CounterStore × Disk × Result (Unit {0}) IoError
  adjust_session delta s d = change (adjusted delta) s d

  unfoldable pub reset_session :
      CounterStore → Disk → CounterStore × Disk × Result (Unit {0}) IoError
  reset_session s d = change session_cleared s d

  unfoldable pub reset_total : CounterStore → Disk → CounterStore × Disk × Result (Unit {0}) IoError
  reset_total s d = change total_cleared s d
