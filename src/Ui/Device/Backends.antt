-- ===== src/Ui/Device/Backends.antt =====
-- The two backends of the panel as the loop takes them: `IpcBackend` and `LocalBackend` of
-- src/baler-ui/src/main.rs.
use claas_rollant.Prelude.{ℕ, ◌-◌, ◌/◌, Option, none, some, Result, ok, err, from_millis}
use claas_rollant.Ipc.{StateSnapshot}
use claas_rollant.Counter.Files.{FileSystem, ReadError}
use claas_rollant.Counter.Store as Store
use claas_rollant.Counter.Store.{CounterStore}
use claas_rollant.Transport.{MessageReader, drain_latest}
use claas_rollant.Transport.Links as Links
use claas_rollant.Transport.Links.{Iox, IpcBackend, PanelError, new_ipc_backend}
use claas_rollant.Ui.Local as Local
use claas_rollant.Ui.Local.{LocalBackend}
use claas_rollant.Ui.Device.{Backend}

module _ (iox : Iox) {E : Type 0}
    (try_recv : iox.Reader → iox.Reader × Result (Option StateSnapshot) E) where
  -- The reader of the state channel.
  abbrev pub states : MessageReader StateSnapshot
  states = record { Reader = iox.Reader; RecvError = E; try_recv = try_recv }

  abbrev pub seen :
      IpcBackend iox
      → iox.World
      → Option (iox.Reader × StateSnapshot)
      → Option (IpcBackend iox × iox.World × StateSnapshot)
  seen b w none = none
  seen b w (some (rx, last)) = some (record b { state_rx = rx; last = last }, w, last)

  -- The panel of the link, on the fuel for draining the states.
  abbrev pub ipc_backend : ℕ → Backend
  ipc_backend fuel = record {
    Handle = IpcBackend iox;
    World = iox.World;
    OpenError = PanelError iox;
    make_backend = λ t. new_ipc_backend iox;
    step = λ t b w. seen b w (drain_latest states fuel b.state_rx b.last);
    command = λ cmd b w. (b, Links.command iox b cmd w);
  }

module _ (fs : FileSystem) where
  -- The counters of the standalone panel, with the `unwrap` of the second load: `none` is its panic.
  abbrev or_temporary :
      Result (CounterStore fs) ReadError
      → Result (CounterStore fs) ReadError
      → Option (CounterStore fs)
  or_temporary (ok store) r = some store
  or_temporary (err e) (ok store) = some store
  or_temporary (err e) (err e') = none

  unfoldable pub load_counters : fs.FilePath → fs.FilePath → fs.Disk → Option (CounterStore fs)
  load_counters path temporary d = or_temporary (Store.load fs path d) (Store.load fs temporary d)

  -- A standalone backend with the times of its start and of its last step, in milliseconds.
  pub record Timed : Type 0 where
    pub local : LocalBackend fs
    pub start : ℕ
    pub last : ℕ

  abbrev made : ℕ → fs.Disk → Option (CounterStore fs) → Option (fs.Disk × Result Timed (Unit {0}))
  made t d none = none
  made t d (some store) = some (d, ok (record { local = Local.new fs store; start = t; last = t }))

  -- The standalone panel, on the part of the disk with the counters; a `none` of its construction is a
  -- panic.
  abbrev pub local_backend : fs.FilePath → fs.FilePath → Backend
  local_backend path temporary = record {
    Handle = Timed;
    World = fs.Disk;
    OpenError = Unit {0};
    make_backend = λ t d. made t d (load_counters path temporary d);
    step = λ t b d.
        let (d', local, snap) =
          Local.step fs (from_millis (t - b.last)) ((t - b.start) / 1000) d b.local in
        some (record b { local = local; last = t }, d', snap);
    command = λ cmd b d.
        let (d', local) = Local.command fs cmd d b.local in (record b { local = local }, d');
  }
