-- ===== src/Daemon/Startup.antt =====
-- The whole daemon process of the device build: `main`, `build_net_wd` and `run_ethercat` of
-- src/baler-daemon/src/main.rs. What is not the repository's stands as a platform of parameters.

pub mod Armed
pub mod Ends
use claas_rollant.Prelude.{
  ℕ, Bool, true, false, List, [], ◌∷◌, Option, none, some, Result, ok, err, Trial,
}
use claas_rollant.Prelude.Text.{Text, codes}
use claas_rollant.Prelude.Phases.{Phase, ◌>>=◌, on_part, from_err, trial}
use claas_rollant.Ipc.{Ipv4Addr}
use claas_rollant.Counter.Files.{FileSystem, ReadError}
use claas_rollant.Ports.{NetworkController}
use claas_rollant.Control as Control
use claas_rollant.Watchdog as Watchdog
use claas_rollant.Watchdog.{Driver, WatchdogPetter}
use claas_rollant.Network as Network
use claas_rollant.Network.{NetworkMode, Processes}
use claas_rollant.Transport.Links.{Iox, DaemonLink, new_daemon_link, publish}
use claas_rollant.EthercatIo.{Channels, WagoBus}
use claas_rollant.EthercatIo.Setup.{Taktora, EtherCatIoError, register}
use claas_rollant.Daemon.{
  Edges, Round, LinkReading, Daemon, ProcessError, wait_for_carrier, exit_status,
}
use claas_rollant.Daemon.Process.{run_items}

abbrev pub nic : Text
nic = codes "eth0"

-- The third-party parts below the process. The executor is built and gets its item in taktora's world.
pub record Platform : Type 1 where
  pub fs : FileSystem
  pub counter_path : fs.FilePath
  pub driver : Driver
  pub processes : Processes
  pub iox : Iox
  pub channels : Channels
  pub taktora : Taktora channels
  pub build_executor : Trial taktora.World taktora.ExecutorError (Unit {0})
  pub add_item : Trial taktora.World taktora.ExecutorError (Unit {0})

module _ (pl : Platform) where
  open pl use {fs, driver, processes, iox, channels, taktora}

  -- Everything outside the process that it changes.
  pub record Machine : Type 0 where
    pub disk : fs.Disk
    pub device : driver.Device
    pub host : processes.Host
    pub shared : iox.World
    pub stack : taktora.World

  -- What `Box<dyn Error>` holds when the process ends with an error.
  pub data DynError : Type 0 where
    watchdog_failed : driver.IoError → DynError
    counters_failed : ReadError → DynError
    link_failed : iox.ConnectorError → DynError
    builder_failed : taktora.ExecutorError → DynError
    bus_failed : EtherCatIoError taktora.ConnectorError taktora.ExecutorError → DynError
    process_failed : ProcessError taktora.ExecutorError → DynError

  -- What a process meets from outside: the readings of the link files, the calls of the item, with the
  -- fuel of their polls, and what `exec.run()` returns after them.
  pub record Course : Type 0 where
    pub readings : List LinkReading
    pub fuel : ℕ
    pub rounds : List (Round channels)
    pub returned : Result (Unit {0}) taktora.ExecutorError

  abbrev Step : Type 0 → Type 0
  Step A = Phase Machine DynError A

  abbrev network_mode : NetworkMode
  network_mode = Network.new nic (record { a = 192; b = 168; c = 1; d = 102 }) 24

  abbrev pub net : NetworkController
  net = Network.controller processes network_mode

  -- The watchdog and the link, once they are open.
  abbrev pub edges : WatchdogPetter driver → DaemonLink iox → Edges
  edges wd link = record {
    Watchdog = driver.Device;
    pet = Watchdog.pet driver wd;
    Link = iox.World;
    publish = publish iox link;
  }

  abbrev on_device : {A : Type 0} → Trial driver.Device driver.IoError A → Step A
  on_device m x =
      from_err watchdog_failed
        (on_part (λ y. y.device) (λ d y. record y { device = d }) (trial m) x)

  abbrev on_stack : {E A : Type 0} → (E → DynError) → Trial taktora.World E A → Step A
  on_stack f m x = from_err f (on_part (λ y. y.stack) (λ w y. record y { stack = w }) (trial m) x)

  abbrev open_link : Step (DaemonLink iox)
  open_link x =
      from_err link_failed
        (on_part (λ y. y.shared) (λ w y. record y { shared = w }) (new_daemon_link iox) x)

  abbrev load_control : Step (Control.Control fs)
  load_control x = from_err counters_failed (some (x, Control.new fs pl.counter_path x.disk))

  -- `ip link set eth0 up`, whatever comes of it.
  abbrev pub raise_link : Machine → Machine
  raise_link x =
      let (host, r) = processes.run (codes "link" ∷ codes "set" ∷ nic ∷ codes "up" ∷ []) x.host in
      record x { host = host }

  abbrev pub link_ready :
      Machine → Option (driver.Device × iox.World) → Option (Machine × Result (Unit {0}) DynError)
  link_ready x none = none
  link_ready x (some (device, shared)) = some (record x { device = device; shared = shared }, ok tt)

  -- That call, and the wait for the carrier.
  abbrev pub await_carrier :
      List LinkReading
      → WatchdogPetter driver
      → DaemonLink iox
      → Control.Control fs
      → Step (Unit {0})
  await_carrier readings wd link c x =
      link_ready (raise_link x)
        (wait_for_carrier fs (edges wd link) c readings (x.device, x.shared))

  -- The daemon as the item captures it.
  abbrev pub captured :
      (wd : WatchdogPetter driver) (link : DaemonLink iox)
      → Control.Control fs
      → WagoBus channels
      → Machine
      → Daemon fs net channels (edges wd link)
  captured wd link c bus x = record {
    control = c;
    world = record { disk = x.disk; network = x.host; master = bus };
    watchdog = x.device;
    link = x.shared;
    ever_up = false;
    maintenance = false;
    exit_flag = false;
  }

  abbrev pub left :
      (wd : WatchdogPetter driver) (link : DaemonLink iox)
      → Result (Unit {0}) taktora.ExecutorError
      → Machine
      → Option (Daemon fs net channels (edges wd link) × Bool)
      → Option (Machine × Result (Unit {0}) (ProcessError taktora.ExecutorError))
  left wd link returned x none = none
  left wd link returned x (some (d, stopped)) = some (
    record x { disk = d.world.disk; host = d.world.network; device = d.watchdog; shared = d.link },
    exit_status fs net channels (edges wd link) returned d,
  )

  -- `exec.run()` and the end of `run_ethercat`.
  abbrev pub execute :
      Course
      → WatchdogPetter driver
      → DaemonLink iox
      → Control.Control fs
      → WagoBus channels
      → Step (Unit {0})
  execute co wd link c bus x = from_err process_failed (
      left wd link co.returned x
        (run_items fs net channels (edges wd link) co.fuel co.rounds (captured wd link c bus x)))

  -- The watchdog is dropped whichever way `run_ethercat` ends.
  abbrev pub closing :
      WatchdogPetter driver
      → Option (Machine × Result (Unit {0}) DynError)
      → Option (Machine × Result (Unit {0}) DynError)
  closing wd none = none
  closing wd (some (x, r)) = some (record x { device = Watchdog.drop driver wd x.device }, r)

  abbrev pub ethercat_steps : Course → WatchdogPetter driver → Step (Unit {0})
  ethercat_steps co wd = do
    control ← load_control
    link ← open_link
    waited ← await_carrier co.readings wd link control
    built ← on_stack builder_failed pl.build_executor
    bus ← on_stack bus_failed (register channels taktora)
    added ← on_stack builder_failed pl.add_item
    execute co wd link control bus

  -- `none` means that no reading had a link, or that the fuel of a poll ran out.
  unfoldable pub run_ethercat : Course → WatchdogPetter driver → Step (Unit {0})
  run_ethercat co wd x = closing wd (ethercat_steps co wd x)

  unfoldable pub main : Course → Step (Unit {0})
  main co = do wd ← on_device (Watchdog.build_wd driver); run_ethercat co wd
