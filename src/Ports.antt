-- ===== src/Ports.antt =====
-- The ports of the control cycle and their simulated versions: src/baler-daemon/src/ports.rs. A
-- trait is a record of the state of its implementation and its methods.
use claas_rollant.Prelude.{
  ℕ, suc, ◌%◌, Bool, true, false, Option, none, some, ◌∷◌, ◌++◌, Result, ok, leb, ℤ, pos, negsuc,
}
use claas_rollant.Prelude.Text.{Text, codes, decimal, trim}
use claas_rollant.Ipc.{Ipv4Addr}

pub record Inputs : Type 0 where
  pub bale_full : Bool
  pub knife_in : Bool
  pub bale_open : Bool
  pub healthy : Bool

pub record Outputs : Type 0 where
  pub wrap : Bool
  pub knives_in : Bool
  pub knives_out : Bool

-- `IoError` stands for `std::io::Error`.
pub data NetworkError (IoError : Type 0) : Type 0 where
  command_failed : Text → Option ℤ → Text → NetworkError IoError
  spawn_failed : Text → IoError → NetworkError IoError

pub record NetworkController : Type 1 where
  pub Net : Type 0
  pub IoError : Type 0
  pub enter_ethernet : Net → Net × Result Ipv4Addr (NetworkError IoError)
  pub enter_ethercat : Net → Net × Result (Unit {0}) (NetworkError IoError)

pub record BusController : Type 1 where
  pub Bus : Type 0
  pub suspend : Bus → Bus
  pub restart : Bus → Bus

-- `SimBus::poll`, from the seconds since the start.
unfoldable pub sim_poll : ℕ → Inputs
sim_poll elapsed_secs = record {
  bale_full = leb 16 (elapsed_secs % 24);
  knife_in = false;
  bale_open = false;
  healthy = true;
}

abbrev pub demo_ip : Ipv4Addr
demo_ip = record { a = 192; b = 168; c = 1; d = 102 }

-- `NoopBus`
abbrev pub noop_bus : BusController
noop_bus = record { Bus = Unit {0}; suspend = λ b. b; restart = λ b. b }

-- `SimNetwork`
abbrev pub sim_network : NetworkController
sim_network = record {
  Net = Unit {0};
  IoError = Unit {0};
  enter_ethernet = λ n. (n, ok demo_ip);
  enter_ethercat = λ n. (n, ok tt);
}

-- `to_string` of an i32.
unfoldable pub print_i32 : ℤ → Text
print_i32 (pos n) = decimal n
print_i32 (negsuc n) = b'-' ∷ decimal (suc n)

abbrev print_code : Option ℤ → Text
print_code (some c) = print_i32 c
print_code none = codes "signal"

module _ {IoError : Type 0} where
  -- `fmt`, given how an error of the system is displayed.
  unfoldable pub display_network_error : (IoError → Text) → NetworkError IoError → Text
  display_network_error show (command_failed argv code stderr) =
      b'`' ∷ argv ++ codes "` failed (exit " ++ print_code code ++ codes "): " ++ trim stderr
  display_network_error show (spawn_failed argv source) =
      codes "could not spawn `" ++ argv ++ codes "`: " ++ show source

  unfoldable pub error_source : NetworkError IoError → Option IoError
  error_source (spawn_failed argv source) = some source
  error_source (command_failed argv code stderr) = none
