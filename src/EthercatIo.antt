-- ===== src/EthercatIo.antt =====
-- The WAGO process image: src/baler-daemon/src/ethercat_io.rs. The connector, its channels and the
-- executor are third-party code and stand as parameters.
pub mod Image
pub mod Bus
pub mod Codec
pub mod Health
pub mod Setup
use Prim.Native.Nat.{bit_and, bit_or}
use claas_rollant.Prelude.{
  ℕ, zero, suc, ◌-◌, ◌/◌, ◌%◌, ◌^◌, Bool, true, false, ◌&&◌, not, Option, none, some, Result, ok,
  err, ◌==◌, if◌then◌else◌, is_some,
}
use claas_rollant.Ports.{Inputs, Outputs, BusController}

abbrev pub bit_bale_full : ℕ
bit_bale_full = 0

abbrev pub bit_knife_in : ℕ
bit_knife_in = 1

abbrev pub bit_bale_open : ℕ
bit_bale_open = 2

abbrev pub bit_wrap : ℕ
bit_wrap = 0

abbrev pub bit_knives_in : ℕ
bit_knives_in = 1

abbrev pub bit_knives_out : ℕ
bit_knives_out = 2

-- `(byte >> idx) & 1 == 1`
abbrev pub bit : ℕ → ℕ → Bool
bit byte idx = byte / 2 ^ idx % 2 == 1

-- `byte | (1 << idx)` and `byte & !(1 << idx)`, on a u8.
unfoldable pub set_bit : ℕ → ℕ → Bool → ℕ
set_bit byte idx on = if on then bit_or byte (2 ^ idx) else bit_and byte (255 - 2 ^ idx)

pub data HealthKind : Type 0 where
  up connecting degraded down : HealthKind

unfoldable pub kind_to_u8 : HealthKind → ℕ
kind_to_u8 up = 0
kind_to_u8 connecting = 1
kind_to_u8 degraded = 2
kind_to_u8 down = 3

-- The two channels of the connector. A reader of which `pending` values are left gives an end or an
-- error when none is; a writer may refuse.
pub record Channels : Type 1 where
  pub Connector : Type 0
  pub Reader : Type 0
  pub Writer : Type 0
  pub RecvError : Type 0
  pub SendError : Type 0
  pub try_recv : Reader → Reader × Result (Option ℕ) RecvError
  pub send : ℕ → Writer → Writer × Result (Unit {0}) SendError

module _ (ch : Channels) where
  pub record WagoBus : Type 0 where
    pub connector : Option ch.Connector
    pub reader : ch.Reader
    pub writer : ch.Writer
    pub health : ℕ
    pub last_input : ℕ
    pub last_output : Option ℕ
    pub restart_requested : Bool

  unfoldable pub is_healthy : WagoBus → Bool
  is_healthy b = is_some b.connector && (b.health == kind_to_u8 up)

  -- The loop that drains the input channel, on fuel; `none` means that the fuel ran out.
  unfoldable pub drain : ℕ → WagoBus → Option WagoBus
  drain zero b = none
  drain (suc fuel) b =
      let (reader, r) = ch.try_recv b.reader in
      elim r [
        | ok o ↦ elim o [
          | some value ↦ drain fuel (record b { reader = reader; last_input = value })
          | none ↦ some (record b { reader = reader })
        ]
        | err e ↦ some (record b { reader = reader })
      ]

  abbrev pub down_inputs : Inputs
  down_inputs = record { bale_full = false; knife_in = false; bale_open = false; healthy = false }

  unfoldable pub decode : WagoBus → Inputs
  decode b = record {
    bale_full = bit b.last_input bit_bale_full;
    knife_in = bit b.last_input bit_knife_in;
    bale_open = bit b.last_input bit_bale_open;
    healthy = is_healthy b;
  }

  abbrev read_drained : Option WagoBus → Option (WagoBus × Inputs)
  read_drained none = none
  read_drained (some b) = some (b, decode b)

  unfoldable pub poll : ℕ → WagoBus → Option (WagoBus × Inputs)
  poll fuel b =
      if not (is_some b.connector) then some (b, down_inputs) else read_drained (drain fuel b)

  unfoldable pub encode : Outputs → ℕ
  unfolding set_bit
  encode out =
      set_bit (set_bit (set_bit 0 bit_wrap out.wrap) bit_knives_in out.knives_in) bit_knives_out
        out.knives_out

  abbrev pub is_last : Option ℕ → ℕ → Bool
  is_last none byte = false
  is_last (some last) byte = last == byte

  abbrev sent : ℕ → WagoBus → ch.Writer × Result (Unit {0}) ch.SendError → WagoBus
  sent byte b (writer, ok u) = record b { writer = writer; last_output = some byte }
  sent byte b (writer, err e) = record b { writer = writer }

  unfoldable pub write : WagoBus → Outputs → WagoBus
  write b out =
      if not (is_some b.connector)
      then b
      else if is_last b.last_output (encode out)
      then b
      else sent (encode out) b (ch.send (encode out) b.writer)

  unfoldable pub take_restart_request : WagoBus → WagoBus × Bool
  take_restart_request b = (record b { restart_requested = false }, b.restart_requested)

  -- Dropping the connector tears the bus down; the drop itself runs on another thread.
  unfoldable pub suspend : WagoBus → WagoBus
  suspend b = record b { connector = none }

  unfoldable pub restart : WagoBus → WagoBus
  restart b = record b { restart_requested = true }

  abbrev pub controller : BusController
  controller = record { Bus = WagoBus; suspend = suspend; restart = restart }
