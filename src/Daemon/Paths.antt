-- ===== src/Daemon/Paths.antt =====
-- The two run paths of the daemon, side by side: the executor's item and the simulated loop.
use claas_rollant.Prelude.{ℕ, ◌≡◌, refl, ap, ◌∙◌, false, List, some, arith, inl}
use claas_rollant.Ipc.{Command}
use claas_rollant.Counter.Files.{FileSystem}
use claas_rollant.Ports.{sim_network, sim_poll}
use claas_rollant.Control.{step}
use claas_rollant.Control.AnyBus.{without_bus, step-without_bus}
use claas_rollant.EthercatIo.{Channels, WagoBus, controller, poll}
use claas_rollant.Daemon.{Edges, Daemon, SimDaemon, sim_round, item, work, finish}
use claas_rollant.Daemon.Cycles.{work_outcome, item_settled, met}

module _ (fs : FileSystem) (ch : Channels) (edges : Edges) where
  abbrev D : Type 0
  D = Daemon fs sim_network ch edges

  -- The simulated daemon that a daemon of the EtherCAT path amounts to, its bus left aside.
  abbrev pub simulated : D → SimDaemon fs edges
  simulated d = record {
    control = d.control;
    world = without_bus fs sim_network (controller ch) d.world;
    watchdog = d.watchdog;
    link = d.link;
  }

  work-simulated :
      (d : D) (secs : ℕ) (commands : List Command)
      → (work fs sim_network ch edges d (sim_poll secs) commands).1 ≡ false
      → simulated (work fs sim_network ch edges d (sim_poll secs) commands).0
        ≡ sim_round fs edges (simulated d) secs commands
  unfolding work finish sim_round
  work-simulated d secs commands on =
      let alone =
        step-without_bus fs sim_network (controller ch) d.world d.control (sim_poll secs)
          commands in
      rw alone (ground (arith, on))

  -- The two run paths share one control logic: a call of the item whose poll gives what the simulated
  -- bus would give is stopped just when its commands leave a request for a restart, and else does to the
  -- control state, the disk, the network, the watchdog and the link what a round of the simulated loop
  -- does with the same commands.
  pub paths_agree :
      (fuel elapsed secs : ℕ) (d : D) (commands : List Command) (b : WagoBus ch)
      → poll ch fuel d.world.master ≡ some (b, sim_poll secs)
      → let m = met fs sim_network ch edges d b (sim_poll secs) in
        let asked =
          (step fs sim_network
            (controller ch)
            m.world
            m.control
            (sim_poll secs)
            commands).0.master.restart_requested in
        (d' : D) × (item fs sim_network ch edges fuel d elapsed commands ≡ some (d', asked))
        × (asked ≡ false → simulated d' ≡ sim_round fs edges (simulated d) secs commands)
  unfolding sim_poll
  paths_agree fuel elapsed secs d commands b e =
      let m = met fs sim_network ch edges d b (sim_poll secs) in
      let (stops, ended, went) = work_outcome fs sim_network ch edges m (sim_poll secs) commands in
      (
        (work fs sim_network ch edges m (sim_poll secs) commands).0,
        item_settled fs sim_network ch edges fuel elapsed d commands b (sim_poll secs) e (inl refl)
            ∙ ap (λ s. some ((work fs sim_network ch edges m (sim_poll secs) commands).0, s)) stops,
        λ no. work-simulated m secs commands (stops ∙ no),
      )
