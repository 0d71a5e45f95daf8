-- ===== src/Prelude/Words.antt =====
-- Machine integers as native numbers, signed integers, and durations.
use Prim.Native.Nat.{ℕ, suc, ◌+◌, ◌-◌, ◌*◌, ◌^◌, min}

abbrev pub max_u8 : ℕ
max_u8 = 2 ^ 8 - 1

abbrev pub max_u64 : ℕ
max_u64 = 2 ^ 64 - 1

-- `negsuc n` is -(n + 1).
pub data ℤ : Type 0 where
  pos : ℕ → ℤ
  negsuc : ℕ → ℤ

-- `u8::saturating_add` and `u64::saturating_add`
abbrev pub sat_add_u8 : ℕ → ℕ → ℕ
sat_add_u8 a b = min (a + b) max_u8

abbrev pub sat_add_u64 : ℕ → ℕ → ℕ
sat_add_u64 a b = min (a + b) max_u64

-- `u64::saturating_add_signed`: `-` on ℕ stops at 0, as the method does.
abbrev pub sat_add_signed : ℕ → ℤ → ℕ
sat_add_signed a (pos d) = min (a + d) max_u64
sat_add_signed a (negsuc d) = a - suc d

-- `Duration`, in nanoseconds: the type holds 2^64 - 1 seconds and 999 999 999 ns.
abbrev pub max_duration : ℕ
max_duration = 2 ^ 64 * 1_000_000_000 - 1

abbrev pub from_millis : ℕ → ℕ
from_millis n = n * 1_000_000

abbrev pub from_secs : ℕ → ℕ
from_secs n = n * 1_000_000_000

-- `Duration::saturating_add`
abbrev pub sat_add_duration : ℕ → ℕ → ℕ
sat_add_duration a b = min (a + b) max_duration
