-- ===== src/Tests/Links.antt =====
-- The bus handle, the daemon's item, the link to the panel and the network, on channels that are lists.
use claas_rollant.Prelude.{
  ℕ, zero, suc, ◌≡◌, refl, true, false, List, [], ◌∷◌, none, some, Result, ok, err, arith, length,
  inl, inr, pos,
}
use claas_rollant.Ipc.{ethernet, return_to_ethercat, wrap, enter_ethernet, Ipv4Addr}
use claas_rollant.Ports.{sim_network}
use claas_rollant.Control.{step}
use claas_rollant.EthercatIo.{controller}
use claas_rollant.EthercatIo.Bus.{step-IsQuiet, IsQuiet}
use claas_rollant.State
use claas_rollant.Prelude.Text.{Text, codes}
use claas_rollant.Daemon.{Round, Daemon, exit_status, restart_wanted}
use claas_rollant.Daemon.Process.{run_items, process_stays_up, process_returns}
use claas_rollant.Network.{NetworkMode, Processes, Output, enter_ethercat, run_ip, drop_route}
use claas_rollant.Network.Scripts.{
  enter_ethercat_lem, IsAway, failure, argv_of, run_script, down_script,
}
use claas_rollant.Tests.Data.{mem_fs, calm, control, list_channels, counting, wago, daemon, fewer}

initial-IsQuiet : IsQuiet mem_fs sim_network list_channels daemon.world control
unfolding State.new
initial-IsQuiet = ground arith

step-IsQuiet_example :
    let (w', c', out, snap) =
      step mem_fs sim_network
        (controller list_channels)
        daemon.world
        control
        calm
        (enter_ethernet ∷ wrap ∷ []) in
    IsQuiet mem_fs sim_network list_channels w' c'
step-IsQuiet_example =
    step-IsQuiet mem_fs sim_network list_channels daemon.world control calm
      (enter_ethernet ∷ wrap ∷ []) initial-IsQuiet

abbrev gateway : Ipv4Addr
gateway = record { a = 10; b = 0; c = 0; d = 254 }

abbrev eth0 : NetworkMode
eth0 = record {
  iface = codes "eth0";
  ip = record { a = 192; b = 168; c = 1; d = 102 };
  prefix_len = 24;
  gateway = some gateway;
}

-- `ip` counts its runs, and says in capitals that there is no route to delete.
abbrev no_route : Text
no_route = codes "RTNETLINK answers: No such process"

abbrev refused : Output
refused = record { success = false; code = some (pos 2); stderr = no_route }

abbrev done : Output
done = record { success = true; code = some (pos 0); stderr = [] }

abbrev counted : List Text → ℕ → ℕ × Result Output (Unit {0})
counted args zero = (1, ok refused)
counted args n = (suc n, ok done)

abbrev routeless : Processes
routeless = record { Host = ℕ; IoError = Unit {0}; run = counted }

enter_ethercat_lem_example :
    (IsAway routeless (ok refused)
      → enter_ethercat routeless eth0 0 ≡ run_script routeless (down_script routeless eth0) 1)
    × ((IsAway routeless (ok refused) → ⊥)
        → enter_ethercat routeless eth0 0 ≡ (
          1,
          err (failure routeless (argv_of routeless (drop_route routeless eth0)) (ok refused)),
        ))
enter_ethercat_lem_example = enter_ethercat_lem routeless eth0 gateway 0 1 (ok refused) refl refl

refused-IsAway : IsAway routeless (ok refused)
refused-IsAway = inr (inl (codes "rtnetlink answers: ", [], refl))

-- So the switch goes on with the two other commands.
three_runs : enter_ethercat routeless eth0 0 ≡ (3, ok tt)
unfolding run_ip
three_runs = (enter_ethercat_lem routeless eth0 gateway 0 1 (ok refused) refl refl).0 refused-IsAway

-- A process that is up, for a round on a healthy bus and one on a bus that is down.
abbrev settled : Daemon mem_fs sim_network list_channels counting
settled = record daemon { ever_up = true }

abbrev two_rounds : List (Round list_channels)
two_rounds =
    record { elapsed = 60_000; reader = 5 ∷ 7 ∷ []; health = 0; commands = wrap ∷ [] }
    ∷ record { elapsed = 60_010; reader = []; health = 3; commands = [] }
    ∷ []

process_stays_up_example :
    (d' : Daemon mem_fs sim_network list_channels counting) × (run_items mem_fs sim_network
        list_channels counting 3 two_rounds settled
      ≡ some (d', false))
    × (d'.watchdog ≡ 2)
    × (exit_status mem_fs sim_network list_channels counting {E = Unit {0}} (ok tt) d' ≡ ok tt)
process_stays_up_example =
    process_stays_up mem_fs sim_network list_channels counting length fewer 3 two_rounds settled
      (record { settled = inl refl; no_restart = refl; no_exit = refl })
      ((omega arith, (tt, tt)), ((omega arith, tt), tt))

-- The same process in Ethernet mode, with its bus torn down.
abbrev in_maintenance : Daemon mem_fs sim_network list_channels counting
in_maintenance = record settled {
  control = record control { state = record (control.state) { mode = ethernet } };
  world = record (daemon.world) { master = record wago { connector = none } };
  maintenance = true;
}

abbrev return_round : Round list_channels
return_round = record {
  elapsed = 90_000;
  reader = [];
  health = 3;
  commands = return_to_ethercat ∷ [];
}

no_manual : control.manual_io_remaining ≡ 0
no_manual = refl

process_returns_example :
    (d' : Daemon mem_fs sim_network list_channels counting) × (run_items mem_fs sim_network
        list_channels counting 3
        (return_round ∷ two_rounds)
        in_maintenance
      ≡ some (d', true))
    × (exit_status mem_fs sim_network list_channels counting {E = Unit {0}} (ok tt) d'
        ≡ err restart_wanted)
    × (d'.watchdog ≡ 0)
process_returns_example =
    process_returns mem_fs sim_network list_channels counting length fewer 3 return_round two_rounds
      in_maintenance (record { settled = inl refl; no_restart = refl; no_exit = refl }) no_manual
      refl (omega arith) refl
