-- ===== src/Tests/Process.antt =====
-- The whole process: its start, its end, the backstop of the bring-up and the two run paths.
use claas_rollant.Prelude.{◌≡◌, refl, true, false, [], ◌∷◌, some, ok, err, arith, length}
use claas_rollant.Prelude.Phases.{continue_with, from_err, placed}
use claas_rollant.Prelude.Text.{lines}
use claas_rollant.Counter.Format.{parse, parse_lines, parse_line}
use claas_rollant.Counter.Store.{load}
use claas_rollant.Bringup.{retry_open, attempts, cleaned}
use claas_rollant.Transport.{open_with_recovery, backoff_for}
use claas_rollant.Transport.Links.{new_daemon_link, open_both, publish, is_corrupted, contains}
use claas_rollant.Watchdog as Watchdog
use claas_rollant.Control as Control
use claas_rollant.EthercatIo.Setup.{register}
use claas_rollant.EthercatIo.{poll, drain, decode, is_healthy}
use claas_rollant.Ipc.{wrap}
use claas_rollant.State
use claas_rollant.Ports.{sim_network, sim_poll}
use claas_rollant.Control.{step}
use claas_rollant.EthercatIo.{WagoBus, controller, kind_to_u8}
use claas_rollant.Daemon.{
  Round, Daemon, restart_wanted, exit_status, item, sim_round, wait_for_carrier,
}
use claas_rollant.Daemon.Process.{run_items}
use claas_rollant.Daemon.Cycles.{met}
use claas_rollant.Daemon.Backstop.{process_gives_up, IsWaiting}
use claas_rollant.Daemon.Paths.{paths_agree, simulated}
use claas_rollant.Daemon.Startup.{Machine, main, process_failed, run_ethercat}
use claas_rollant.Daemon.Startup.Armed.{main_leaves_armed}
use claas_rollant.Tests.Data.{mem_fs, list_channels, counting, daemon, fewer, wago}
use claas_rollant.Tests.Platform.{platform, machine, course, late_round}

-- A round before the deadline.
abbrev early_round : Round list_channels
early_round = record { elapsed = 10; reader = 5 ∷ 7 ∷ []; health = 1; commands = wrap ∷ [] }

initial-IsWaiting : IsWaiting mem_fs sim_network list_channels counting daemon
unfolding State.new
initial-IsWaiting = record {
  never_up = refl;
  no_maintenance = refl;
  no_ethernet = ground arith;
  no_restart = refl;
  no_exit = refl;
}

process_gives_up_example :
    (d' : Daemon mem_fs sim_network list_channels counting) × (run_items mem_fs sim_network
        list_channels counting 3
        (early_round ∷ late_round ∷ early_round ∷ [])
        daemon
      ≡ some (d', true))
    × (d'.watchdog ≡ 1)
    × (exit_status mem_fs sim_network list_channels counting {E = Unit {0}} (ok tt) d'
        ≡ err restart_wanted)
unfolding kind_to_u8
process_gives_up_example =
    process_gives_up mem_fs sim_network list_channels counting length fewer 3 (early_round ∷ [])
      late_round (early_round ∷ []) daemon initial-IsWaiting
      (((omega arith, ground arith), omega arith, (tt, tt)), tt) (omega arith, ground arith)
      (omega arith)

abbrev ended : Machine platform
ended = record machine { device = (true, false); host = 1; shared = 0; stack = 8 }

-- The link opens, the carrier comes, and the bus stays down: the process asks for a fresh one.
course-run : main platform course machine ≡ some (ended, err (process_failed restart_wanted))
unfolding main run_ethercat Watchdog.build_wd Watchdog.open_petter Watchdog.pet Watchdog.drop
    continue_with from_err placed Control.new load parse parse_lines parse_line lines
    new_daemon_link open_both open_with_recovery retry_open attempts cleaned backoff_for
    wait_for_carrier publish register run_items item poll drain decode is_healthy kind_to_u8
    exit_status is_corrupted contains
course-run = refl

main_leaves_armed_example : ended.device.0 ≡ true
main_leaves_armed_example =
    main_leaves_armed platform course machine ended (err (process_failed restart_wanted)) refl
      course-run

-- The bus with all its inputs off, as the simulated one has them in its first seconds.
abbrev low_bus : WagoBus list_channels
low_bus = record wago { reader = 0 ∷ [] }

abbrev low_daemon : Daemon mem_fs sim_network list_channels counting
low_daemon = record daemon { world = record (daemon.world) { master = low_bus } }

low_bus-polled : poll list_channels 3 low_bus ≡ some (record low_bus { reader = [] }, sim_poll 3)
unfolding poll drain decode is_healthy kind_to_u8 sim_poll
low_bus-polled = refl

paths_agree_example :
    let m =
      met mem_fs sim_network list_channels counting low_daemon
        (record low_bus { reader = [] })
        (sim_poll 3) in
    let asked =
      (step mem_fs sim_network
        (controller list_channels)
        m.world
        m.control
        (sim_poll 3)
        (wrap ∷ [])).0.master.restart_requested in
    (d' : Daemon mem_fs sim_network list_channels counting) × (item mem_fs sim_network list_channels
        counting 3 low_daemon 30
        (wrap ∷ [])
      ≡ some (d', asked))
    × (asked ≡ false
        → simulated mem_fs list_channels counting d'
          ≡ sim_round mem_fs counting
              (simulated mem_fs list_channels counting low_daemon)
              3
              (wrap ∷ []))
paths_agree_example =
    paths_agree mem_fs list_channels counting 3 30 3 low_daemon (wrap ∷ [])
      (record low_bus { reader = [] }) low_bus-polled
