-- ===== src/Transport.antt =====
-- The link between daemon and panel: src/baler-daemon/src/transport.rs, the link parts of
-- src/baler-ui/src/main.rs, src/baler-core/src/channel.rs and codec.rs. The channels and the serialised
-- form are third-party code and stand as parameters.
pub mod Recovery
pub mod Links
pub mod Codec
use claas_rollant.Prelude.{
  ℕ, zero, suc, ◌*◌, min, Bool, true, false, List, [], ◌∷◌, ◌++◌, Option, none, some, Result, ok,
  err, from_millis,
}
use claas_rollant.Ipc.{Command, StateSnapshot, Mode, initializing, unknown}
use claas_rollant.Bringup.{Hooks, retry_open}

abbrev pub payload_max : ℕ
payload_max = 256

abbrev pub open_attempts : ℕ
open_attempts = 10

-- `backoff_for`, and the sleep of `link_backoff`.
unfoldable pub backoff_for : ℕ → ℕ
backoff_for attempt = from_millis (min (attempt * 50) 500)

-- What iceoryx2 and taktora give: one attempt to open a channel, the test for a corrupted service on the
-- printed error, the removal of dead nodes, and the sleep.
pub record Node (T : Type 0) : Type 1 where
  pub Stack : Type 0
  pub ConnectorError : Type 0
  pub open_channel : Stack → Stack × Result T ConnectorError
  pub mentions_corrupted : ConnectorError → Bool
  pub cleanup_dead_nodes : Stack → Stack
  pub sleep : ℕ → Stack → Stack

module _ {T : Type 0} (node : Node T) where
  abbrev pub hooks : Hooks node.Stack T node.ConnectorError
  hooks = record {
    open_once = node.open_channel;
    is_corrupted = node.mentions_corrupted;
    cleanup = node.cleanup_dead_nodes;
    backoff = λ attempt s. node.sleep (backoff_for attempt) s;
  }

  unfoldable pub open_with_recovery :
      node.Stack → Option (node.Stack × Result T node.ConnectorError)
  open_with_recovery s = retry_open hooks open_attempts s

-- A channel reader of messages of type `M`.
pub record MessageReader (M : Type 0) : Type 1 where
  pub Reader : Type 0
  pub RecvError : Type 0
  pub try_recv : Reader → Reader × Result (Option M) RecvError

module _ {M : Type 0} (ch : MessageReader M) where
  -- `DaemonLink::drain`, on fuel: all pending commands, oldest first.
  unfoldable pub drain_all : ℕ → ch.Reader → List M → Option (ch.Reader × List M)
  drain_all zero r out = none
  drain_all (suc fuel) r out =
      let (r', m) = ch.try_recv r in
      elim m [
        | ok o ↦ elim o [
          | some value ↦ drain_all fuel r' (out ++ value ∷ [])
          | none ↦ some (r', out)
        ]
        | err e ↦ some (r', out)
      ]

  -- `IpcBackend::step`, on fuel: the newest message, or the last one seen.
  unfoldable pub drain_latest : ℕ → ch.Reader → M → Option (ch.Reader × M)
  drain_latest zero r last = none
  drain_latest (suc fuel) r last =
      let (r', m) = ch.try_recv r in
      elim m [
        | ok o ↦ elim o [ some value ↦ drain_latest fuel r' value | none ↦ some (r', last) ]
        | err e ↦ some (r', last)
      ]

-- What the panel shows before the first frame arrives.
unfoldable pub first_snapshot : StateSnapshot
first_snapshot = record {
  mode = initializing;
  bale_full = false;
  knife = unknown;
  wrap_armed = false;
  full_latched = false;
  wrap_active = false;
  knife_active = false;
  session = 0;
  total = 0;
  di1 = false;
  di2 = false;
  di3 = false;
  ip = record { a = 0; b = 0; c = 0; d = 0 };
  ip_valid = false;
}
