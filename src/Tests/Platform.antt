-- ===== src/Tests/Platform.antt =====
-- A platform for the witnesses of the whole process: a watchdog that never fails, a link that opens after
-- some attempts, and an EtherCAT stack that counts its calls.
use claas_rollant.Prelude.{
  ℕ, zero, suc, ◌≡◌, refl, Bool, true, false, [], ◌∷◌, Result, ok, err, arith, if◌then◌else◌,
}
use claas_rollant.Prelude.Text.{Text, codes}
use claas_rollant.Transport.Links.{Iox}
use claas_rollant.Watchdog.{Driver, has_magic}
use claas_rollant.EthercatIo.{connecting}
use claas_rollant.EthercatIo.Setup.{Taktora}
use claas_rollant.Daemon.{Round}
use claas_rollant.Daemon.Startup.{Platform, Machine, Course}
use claas_rollant.Tests.Data.{mem_fs, disk, list_channels, tame}

pub never_fails : (a b : Bool) → true ≡ false → a ≡ b
never_fails a b h = ground (arith, h)

-- A driver that never fails: whether the timer runs, and whether the last write had the magic byte.
abbrev pub driver : Driver
driver = record {
  Device = Bool × Bool;
  File = Unit {0};
  IoError = Unit {0};
  open_write = λ d. ((true, false), ok tt);
  settimeout = λ f secs d. (d, ok secs);
  write_all = λ f bs d. ((d.0, has_magic bs), ok tt);
  close = λ f d. (if d.1 then false else d.0, false);
  armed = λ d. d.0;
  magic = λ d. d.1;
  open_arms = λ d h. (refl, refl);
  settimeout_keeps = λ f secs d. (refl, refl);
  write_keeps = λ f bs d. (refl, λ h. refl, never_fails (has_magic bs) d.1);
  close_disarms = λ f d. refl;
}

-- A stack on which the first attempts find a corrupted service.
abbrev try_port : ℕ → ℕ × Result ℕ Text
try_port zero = (0, ok 0)
try_port (suc n) = (n, err (codes "ServiceInCorruptedState"))

abbrev pub racing : Iox
racing = record {
  World = ℕ;
  NodeError = Unit {0};
  ConnectorError = Text;
  Descriptor = Text;
  Writer = ℕ;
  Reader = ℕ;
  create_node = λ w. (w, ok tt);
  descriptor = λ name w. (w, ok name);
  create_writer = λ d. try_port;
  create_reader = λ d. try_port;
  cleanup_dead_nodes = λ w. w;
  sleep = λ n w. w;
  send_state = λ snap tx w. (w, ok tt);
  send_command = λ cmd tx w. (w, ok tt);
  debug_node = λ e. [];
  stack = λ t. t;
  debug = λ t. t;
}

abbrev stack : Taktora list_channels
stack = record {
  World = ℕ;
  ConnectorError = Unit {0};
  ExecutorError = Unit {0};
  Driver = Unit {0};
  Descriptor = Text;
  new_driver = λ w. (suc w, ok tt);
  new_connector = λ d w. (suc w, ok tt);
  descriptor = λ name routing w. (w, ok name);
  create_reader = λ c d w. (suc w, ok []);
  create_writer = λ c d w. (suc w, ok []);
  register_with = λ c w. (suc w, ok tt);
  health_kind = λ c w. connecting;
  add_health_pump = λ c w. (suc w, ok tt);
}

abbrev pub platform : Platform
platform = record {
  fs = mem_fs;
  counter_path = true;
  driver = driver;
  processes = tame;
  iox = racing;
  channels = list_channels;
  taktora = stack;
  build_executor = λ w. (suc w, ok tt);
  add_item = λ w. (suc w, ok tt);
}

-- The timer is off, and the link needs four attempts.
abbrev pub machine : Machine platform
machine = record { disk = disk; device = (false, false); host = 0; shared = 4; stack = 0 }

-- The bus is down, and 12 s have passed.
abbrev pub late_round : Round list_channels
late_round = record { elapsed = 12_000; reader = 5 ∷ []; health = 1; commands = [] }

-- Two looks at the link files without a link, and one with a carrier; then one call of the item.
abbrev pub course : Course platform
course = record {
  readings =
      record { up = false; has_carrier = false }
      ∷ record { up = false; has_carrier = false }
      ∷ record { up = false; has_carrier = true }
      ∷ [];
  fuel = 2;
  rounds = late_round ∷ [];
  returned = ok tt;
}
