-- ===== src/Tests/Data.antt =====
-- Concrete third-party parts for the witnesses: a disk of two files that never fails, channels that are
-- lists, a watchdog and a link that count, and hooks that fail a number of times.
use claas_rollant.Prelude.{
  length, ◌<◌, ◌-◌, ℕ, zero, suc, ◌≡◌, ◌≢◌, refl, Bool, true, false, List, [], ◌∷◌, ◌++◌, Option,
  none, some, Result, ok, err, is_ok, arith,
}
use claas_rollant.Prelude.Text.{Text, codes, lines}
use claas_rollant.Counter.Files.{FileSystem, ReadError, not_found}
use claas_rollant.Counter.Format.{parse, parse_lines, parse_line}
use claas_rollant.Counter.Store.{CounterStore, load}
use claas_rollant.Ports.{Inputs, sim_network, noop_bus}
use claas_rollant.Bringup.{Hooks}
use claas_rollant.EthercatIo.{Channels, WagoBus}
use claas_rollant.Daemon.{Edges, Daemon}
use claas_rollant.Ui.Nav.{main}
use claas_rollant.Ui.Language.{de}
use claas_rollant.Ui.Panel.{Panel, new_service}
use claas_rollant.Network.{Processes}
use claas_rollant.Control.{Control, World, initial, new}
use claas_rollant.Control.Invariant.{IsValid}
use claas_rollant.Control.Safety.{new-IsValid}
use claas_rollant.Control.History.{System}

-- The file at the path `true` and the one at the path `false`.
pub record TwoFiles : Type 0 where
  pub at_target : Result Text ReadError
  pub at_tmp : Result Text ReadError

abbrev read_file : TwoFiles → Bool → Result Text ReadError
read_file d true = d.at_target
read_file d false = d.at_tmp

abbrev put_file : Bool → Result Text ReadError → TwoFiles → TwoFiles
put_file true r d = record d { at_target = r }
put_file false r d = record d { at_tmp = r }

abbrev append_file : Bool → Text → TwoFiles → TwoFiles × Result (Unit {0}) (Unit {0})
append_file p t d = elim (read_file d p) [
  | ok old ↦ (put_file p (ok (old ++ t)) d, ok tt)
  | err e ↦ (d, err tt)
]

abbrev rename_file : Bool → Bool → TwoFiles → TwoFiles × Result (Unit {0}) (Unit {0})
rename_file p q d = elim (read_file d p) [
  | ok t ↦ (put_file q (ok t) (put_file p (err not_found) d), ok tt)
  | err e ↦ (d, err tt)
]

pub create_empty_lem : (d : TwoFiles) (p : Bool) → read_file (put_file p (ok []) d) p ≡ ok []
create_empty_lem d p = ground arith

pub put_keeps :
    (d : TwoFiles) (p q : Bool) (r : Result Text ReadError)
    → q ≢ p
    → read_file (put_file p r d) q ≡ read_file d q
put_keeps d true true r n = absurd (n refl)
put_keeps d true false r n = refl
put_keeps d false true r n = refl
put_keeps d false false r n = absurd (n refl)

pub write_appends_lem :
    (d : TwoFiles) (p : Bool) (old new : Text)
    → read_file d p ≡ ok old
    → is_ok (append_file p new d).1 ≡ true
    → read_file (append_file p new d).0 p ≡ ok (old ++ new)
write_appends_lem d true old new e h = ground arith
write_appends_lem d false old new e h = ground arith

pub write_keeps_lem :
    (d : TwoFiles) (p q : Bool) (t : Text)
    → q ≢ p
    → read_file (append_file p t d).0 q ≡ read_file d q
write_keeps_lem d true true t n = absurd (n refl)
write_keeps_lem d true false t n = ground arith
write_keeps_lem d false true t n = ground arith
write_keeps_lem d false false t n = absurd (n refl)

pub rename_replaces_lem :
    (d : TwoFiles) (p q : Bool)
    → is_ok (rename_file p q d).1 ≡ true
    → read_file (rename_file p q d).0 q ≡ read_file d p
rename_replaces_lem d p q h = ground arith

pub rename_fails_lem :
    (d : TwoFiles) (p q : Bool)
    → is_ok (rename_file p q d).1 ≡ false
    → read_file (rename_file p q d).0 q ≡ read_file d q
rename_fails_lem d p q h = ground arith

abbrev pub mem_fs : FileSystem
mem_fs = record {
  Disk = TwoFiles;
  FilePath = Bool;
  IoError = Unit {0};
  parent = λ p. some p;
  with_extension_tmp = λ p. false;
  read_to_string = read_file;
  create_dir_all = λ dir d. (d, ok tt);
  create = λ p d. (put_file p (ok []) d, ok tt);
  write_text = append_file;
  sync_all = λ p d. (d, ok tt);
  rename = rename_file;
  create_dir_all_keeps = λ d p dir e. refl;
  create_empty = λ d p h. create_empty_lem d p;
  create_keeps = λ d p q n. put_keeps d p q (ok []) n;
  write_appends = write_appends_lem;
  write_keeps = write_keeps_lem;
  sync_keeps = λ d p q. refl;
  rename_replaces = rename_replaces_lem;
  rename_fails = rename_fails_lem;
}

abbrev pub disk : TwoFiles
disk = record { at_target = ok (codes "session=3\ntotal=41\n"); at_tmp = err not_found }

abbrev pub store : CounterStore mem_fs
store = record { path = true; counters = record { session = 3; total = 41 } }

-- Channels whose reader is the list of the values to come.
abbrev pub next_value {ℓ} : {A : Type ℓ} → List A → List A × Result (Option A) (Unit {0})
next_value [] = ([], ok none)
next_value (a ∷ rest) = (rest, ok (some a))

abbrev pub list_channels : Channels
list_channels = record {
  Connector = Unit {0};
  Reader = List ℕ;
  Writer = List ℕ;
  RecvError = Unit {0};
  SendError = Unit {0};
  try_recv = next_value;
  send = λ v w. (v ∷ w, ok tt);
}

-- A list is shorter after a value is taken.
pub fewer :
    (r r' : List ℕ) (v : ℕ) → list_channels.try_recv r ≡ (r', ok (some v)) → length r' < length r
fewer [] r' v e = ground arith
fewer (a ∷ r) r' v e = ground arith

-- The watchdog and the link count what they are given.
abbrev pub counting : Edges
counting = record { Watchdog = ℕ; pet = suc; Link = ℕ; publish = λ snap n. suc n }

-- An attempt fails as long as the number in the world is not 0; it counts down.
abbrev try_open : ℕ → ℕ × Result Bool Bool
try_open zero = (0, ok true)
try_open (suc n) = (n, err true)

abbrev pub failing : Hooks ℕ Bool Bool
failing = record {
  open_once = try_open;
  is_corrupted = λ e. e;
  cleanup = λ n. n - 1;
  backoff = λ a n. n;
}

-- Processes that all succeed and are counted.
abbrev pub tame : Processes
tame = record {
  Host = ℕ;
  IoError = Unit {0};
  run = λ args n. (suc n, ok (record { success = true; code = none; stderr = [] }));
}

abbrev pub calm : Inputs
calm = record { bale_full = false; knife_in = true; bale_open = false; healthy = true }

abbrev pub lost : Inputs
lost = record { bale_full = true; knife_in = false; bale_open = false; healthy = false }

abbrev pub world : World mem_fs sim_network noop_bus
world = record { disk = disk; network = tt; master = tt }

abbrev pub control : Control mem_fs
control = initial mem_fs store

abbrev pub system : System mem_fs sim_network noop_bus
system = record { world = world; control = control }

abbrev pub wago : WagoBus list_channels
wago = record {
  connector = some tt;
  reader = 5 ∷ 7 ∷ [];
  writer = [];
  health = 0;
  last_input = 0;
  last_output = none;
  restart_requested = false;
}

abbrev pub daemon : Daemon mem_fs sim_network list_channels counting
daemon = record {
  control = control;
  world = record { disk = disk; network = tt; master = wago };
  watchdog = 0;
  link = 0;
  ever_up = false;
  maintenance = false;
  exit_flag = false;
}

-- The daemon starts on that disk with that control state, and the state is valid.
pub started : new mem_fs true disk ≡ ok control
unfolding new load parse parse_lines parse_line lines
started = refl

pub control-IsValid : IsValid mem_fs control
control-IsValid = new-IsValid mem_fs true disk started

-- The panel at its start.
abbrev pub first : Panel
first = record {
  nav = main;
  menu = new_service;
  lang = de;
  io_wrap_held = false;
  io_knives_in_held = false;
  io_knives_out_held = false;
}
