-- ===== src/Ipc.antt =====
-- The contract between daemon and panel: src/baler-core/src/ipc.rs.
use Prim.Native.Nat.{ℕ}
use claas_rollant.Prelude.{Bool, ℤ}

pub data Mode : Type 0 where
  initializing operational fault ethernet : Mode

pub Mode-discrete : Discrete Mode
Mode-discrete = hlevel

-- `ManualIo { wrap, knives_in, knives_out }`; the delta of `AdjustSession` is an i8.
pub data Command : Type 0 where
  wrap toggle_knife reset_session reset_total enter_ethernet return_to_ethercat : Command
  manual_io : Bool → Bool → Bool → Command
  adjust_session : ℤ → Command

pub data KnifePos : Type 0 where
  unknown in_pos out_pos : KnifePos

-- The four octets of an IPv4 address.
pub record Ipv4Addr : Type 0 where
  pub a : ℕ
  pub b : ℕ
  pub c : ℕ
  pub d : ℕ

pub record StateSnapshot : Type 0 where
  pub mode : Mode
  pub bale_full : Bool
  pub knife : KnifePos
  pub wrap_armed : Bool
  pub full_latched : Bool
  pub wrap_active : Bool
  pub knife_active : Bool
  pub session : ℕ
  pub total : ℕ
  pub di1 : Bool
  pub di2 : Bool
  pub di3 : Bool
  pub ip : Ipv4Addr
  pub ip_valid : Bool
