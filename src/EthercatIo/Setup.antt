-- ===== src/EthercatIo/Setup.antt =====
-- The construction of the bus handle: `register` and `EtherCatIoError` of
-- src/baler-daemon/src/ethercat_io.rs. The connector, the executor and their calls are taktora's, and
-- stand as parameters over a state of theirs.
use claas_rollant.Prelude.{ℕ, false, ◌++◌, none, some, ok, Trial, ◌>>=◌, map_err, return}
use claas_rollant.Prelude.Text.{Text, codes}
use claas_rollant.EthercatIo.{Channels, WagoBus, HealthKind, kind_to_u8}

abbrev pub in_channel : Text
in_channel = codes "ethercat.wago.750-430.inputs"

abbrev pub out_channel : Text
out_channel = codes "ethercat.wago.750-530.outputs"

pub data EtherCatIoError (C E : Type 0) : Type 0 where
  connector : C → EtherCatIoError C E
  executor : E → EtherCatIoError C E

-- `fmt`, given how the two errors inside are displayed.
module _ {C E : Type 0} where
  unfoldable pub display_error : (C → Text) → (E → Text) → EtherCatIoError C E → Text
  display_error f g (connector e) = codes "ethercat connector setup failed: " ++ f e
  display_error f g (executor e) = codes "executor setup failed: " ++ g e

-- The place of a channel in the process image: the coupler, the direction, the first bit and the bits.
pub data PdoDirection : Type 0 where
  tx rx : PdoDirection

pub record Routing : Type 0 where
  pub subdev : ℕ
  pub direction : PdoDirection
  pub bit_offset : ℕ
  pub bits : ℕ

-- The data byte behind the coupler's header of four bytes, in each direction.
abbrev pub in_routing : Routing
in_routing = record { subdev = 0x1000; direction = tx; bit_offset = 32; bits = 8 }

abbrev pub out_routing : Routing
out_routing = record { subdev = 0x1000; direction = rx; bit_offset = 32; bits = 8 }

module _ (ch : Channels) where
  -- taktora, for a NIC: the driver, the connector, the descriptors by name, the two channels, and the
  -- registration of the connector and of the health pump into the executor.
  pub record Taktora : Type 1 where
    pub World : Type 0
    pub ConnectorError : Type 0
    pub ExecutorError : Type 0
    pub Driver : Type 0
    pub Descriptor : Type 0
    pub new_driver : Trial World ConnectorError Driver
    pub new_connector : Driver → Trial World ConnectorError ch.Connector
    pub descriptor : Text → Routing → Trial World ConnectorError Descriptor
    pub create_reader : ch.Connector → Descriptor → Trial World ConnectorError ch.Reader
    pub create_writer : ch.Connector → Descriptor → Trial World ConnectorError ch.Writer
    pub register_with : ch.Connector → Trial World ExecutorError (Unit {0})
    pub health_kind : ch.Connector → World → HealthKind
    pub add_health_pump : ch.Connector → Trial World ExecutorError (Unit {0})

  module _ (t : Taktora) where
    abbrev Setup : Type 0 → Type 0
    Setup = Trial t.World (EtherCatIoError t.ConnectorError t.ExecutorError)

    -- The shared health at the start, before the pump is added.
    abbrev first_health : ch.Connector → Setup ℕ
    first_health c w = (w, ok (kind_to_u8 (t.health_kind c w)))

    unfoldable pub register : Setup (WagoBus ch)
    register = do
      driver ← map_err connector t.new_driver
      c ← map_err connector (t.new_connector driver)
      in_desc ← map_err connector (t.descriptor in_channel in_routing)
      reader ← map_err connector (t.create_reader c in_desc)
      out_desc ← map_err connector (t.descriptor out_channel out_routing)
      writer ← map_err connector (t.create_writer c out_desc)
      registered ← map_err executor (t.register_with c)
      health ← first_health c
      added ← map_err executor (t.add_health_pump c)
      return (record {
        connector = some c;
        reader = reader;
        writer = writer;
        health = health;
        last_input = 0;
        last_output = none;
        restart_requested = false;
      })
