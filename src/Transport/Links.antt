-- ===== src/Transport/Links.antt =====
-- Opening the two ends of the link: `DaemonLink` of src/baler-daemon/src/transport.rs and `IpcBackend`
-- of src/baler-ui/src/main.rs. iceoryx2 and taktora stand as parameters over a state of theirs.
pub mod Opening
use claas_rollant.Prelude.{
  ℕ, ◌≡◌, refl, ◌∙◌, ap, Bool, true, false, ◌&&◌, ◌||◌, [], ◌∷◌, ◌++◌, Option, none, some, Result,
  ok, err, Trial, ◌>>=◌, map_err, return, arith, ◌==◌, Bool-cases, inl, inr, ◌↔◌,
}
use claas_rollant.Prelude.Text.{Text, codes}
use claas_rollant.Ipc.{Command, StateSnapshot}
use claas_rollant.Bringup.Outcome.{retry_open_total}
use claas_rollant.Transport.{hooks, open_attempts, Node, open_with_recovery, first_snapshot}

abbrev pub channel_state : Text
channel_state = codes "baler.state"

abbrev pub channel_command : Text
channel_command = codes "baler.command"

abbrev pub is_prefix : Text → Text → Bool
is_prefix [] t = true
is_prefix (c ∷ s) [] = false
is_prefix (c ∷ s) (d ∷ t) = (c == d) && is_prefix s t

-- `str::contains`
unfoldable pub contains : Text → Text → Bool
contains [] s = is_prefix s []
contains (c ∷ t) s = is_prefix s (c ∷ t) || contains t s

-- iceoryx2 and taktora: the node, the descriptor of a service by name, one attempt at each kind of port,
-- the removal of dead nodes, the sleep, and the printed forms of the errors.
pub record Iox : Type 1 where
  pub World : Type 0
  pub NodeError : Type 0
  pub ConnectorError : Type 0
  pub Descriptor : Type 0
  pub Writer : Type 0
  pub Reader : Type 0
  pub create_node : Trial World NodeError (Unit {0})
  pub descriptor : Text → Trial World ConnectorError Descriptor
  pub create_writer : Descriptor → Trial World ConnectorError Writer
  pub create_reader : Descriptor → Trial World ConnectorError Reader
  pub cleanup_dead_nodes : World → World
  pub sleep : ℕ → World → World
  pub send_state : StateSnapshot → Writer → Trial World ConnectorError (Unit {0})
  pub send_command : Command → Writer → Trial World ConnectorError (Unit {0})
  pub debug_node : NodeError → Text
  pub stack : Text → ConnectorError
  pub debug : ConnectorError → Text

module _ (iox : Iox) where
  open iox use {World, ConnectorError, Descriptor, Writer, Reader}

  -- `is_corrupted`, and the panel's `link_is_corrupted`.
  unfoldable pub is_corrupted : ConnectorError → Bool
  is_corrupted e = contains (iox.debug e) (codes "Corrupted")

  -- One channel, as the recovery sees it.
  abbrev pub node : {T : Type 0} → Trial World ConnectorError T → Node T
  node open_channel = record {
    Stack = World;
    ConnectorError = ConnectorError;
    open_channel = open_channel;
    mentions_corrupted = is_corrupted;
    cleanup_dead_nodes = iox.cleanup_dead_nodes;
    sleep = iox.sleep;
  }

  -- The node and the two descriptors, that of the state first.
  abbrev pub prepare :
      {E : Type 0}
      → (iox.NodeError → E)
      → (ConnectorError → E)
      → Trial World E (Descriptor × Descriptor)
  prepare from_node from_connector = do
    created ← map_err from_node iox.create_node
    state_desc ← map_err from_connector (iox.descriptor channel_state)
    cmd_desc ← map_err from_connector (iox.descriptor channel_command)
    return (state_desc, cmd_desc)

  -- The end of a trial that the recovery may lack the fuel for.
  abbrev pub Ending : Type 0 → Type 0 → Type 0
  Ending E A = Option (World × Result A E)

  abbrev pub second_open :
      {A B : Type 0} → A → Ending ConnectorError B → Ending ConnectorError (A × B)
  second_open a none = none
  second_open a (some (w, ok b)) = some (w, ok (a, b))
  second_open a (some (w, err e)) = some (w, err e)

  abbrev pub first_open :
      {A B : Type 0}
      → Ending ConnectorError A
      → Trial World ConnectorError B
      → Ending ConnectorError (A × B)
  first_open none q = none
  first_open (some (w, ok a)) q = second_open a (open_with_recovery (node q) w)
  first_open (some (w, err e)) q = some (w, err e)

  -- Two channels, one after the other, each with its own attempts.
  unfoldable pub open_both :
      {A B : Type 0}
      → Trial World ConnectorError A
      → Trial World ConnectorError B
      → World
      → Ending ConnectorError (A × B)
  open_both p q w = first_open (open_with_recovery (node p) w) q

  pub record DaemonLink : Type 0 where
    pub state_tx : Writer
    pub cmd_rx : Reader

  abbrev pub daemon_ports :
      Ending ConnectorError (Writer × Reader) → Ending ConnectorError DaemonLink
  daemon_ports none = none
  daemon_ports (some (w, ok (tx, rx))) = some (w, ok (record { state_tx = tx; cmd_rx = rx }))
  daemon_ports (some (w, err e)) = some (w, err e)

  abbrev pub daemon_prepared :
      World × Result (Descriptor × Descriptor) ConnectorError → Ending ConnectorError DaemonLink
  daemon_prepared (w, err e) = some (w, err e)
  daemon_prepared (w, ok (state_desc, cmd_desc)) =
      daemon_ports (open_both (iox.create_writer state_desc) (iox.create_reader cmd_desc) w)

  -- `DaemonLink::new`
  unfoldable pub new_daemon_link : World → Ending ConnectorError DaemonLink
  new_daemon_link w =
      daemon_prepared
        (prepare (λ e. iox.stack (codes "node create: " ++ iox.debug_node e)) (λ e. e) w)

  -- `DaemonLink::publish`: best effort.
  unfoldable pub publish : DaemonLink → StateSnapshot → World → World
  publish link snap w = (iox.send_state snap link.state_tx w).0

  pub record IpcBackend : Type 0 where
    pub state_rx : Reader
    pub cmd_tx : Writer
    pub last : StateSnapshot

  -- What `Box<dyn Error>` holds here.
  pub data PanelError : Type 0 where
    node_failed : iox.NodeError → PanelError
    connector_failed : ConnectorError → PanelError

  abbrev pub panel_ports : Ending ConnectorError (Reader × Writer) → Ending PanelError IpcBackend
  panel_ports none = none
  panel_ports (some (w, ok (rx, tx))) =
      some (w, ok (record { state_rx = rx; cmd_tx = tx; last = first_snapshot }))
  panel_ports (some (w, err e)) = some (w, err (connector_failed e))

  abbrev pub panel_prepared :
      World × Result (Descriptor × Descriptor) PanelError → Ending PanelError IpcBackend
  panel_prepared (w, err e) = some (w, err e)
  panel_prepared (w, ok (state_desc, cmd_desc)) =
      panel_ports (open_both (iox.create_reader state_desc) (iox.create_writer cmd_desc) w)

  -- `IpcBackend::new`
  unfoldable pub new_ipc_backend : World → Ending PanelError IpcBackend
  new_ipc_backend w = panel_prepared (prepare node_failed connector_failed w)

  -- `IpcBackend::command`: best effort.
  unfoldable pub command : IpcBackend → Command → World → World
  command b cmd w = (iox.send_command cmd b.cmd_tx w).0
