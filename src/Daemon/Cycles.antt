-- ===== src/Daemon/Cycles.antt =====
-- What one run of the control item does to the watchdog, the bus and the process.
use claas_rollant.Prelude.{
  ℕ, zero, suc, ◌≡◌, refl, ap, ◌∙◌, Bool, true, false, ◌||◌, List, ◌∷◌, All, some, arith, inl, inr,
  ◌++◌, ◌⊎◌, replicate,
}
use claas_rollant.Ipc.{Command, fault}
use claas_rollant.Counter.Files.{FileSystem}
use claas_rollant.Ports.{Inputs, NetworkController}
use claas_rollant.Control.{Control, step, idle_snapshot}
use claas_rollant.Control.NoSwitch.{IsNoSwitch, step_links}
use claas_rollant.EthercatIo.{Channels, WagoBus, controller, poll, write, take_restart_request}
use claas_rollant.Daemon.{
  Edges, Daemon, lapsed, polled, finish, work, item, LinkReading, wait_for_carrier,
}

module _ (fs : FileSystem) (net : NetworkController) (ch : Channels) (edges : Edges) where
  abbrev D : Type 0
  D = Daemon fs net ch edges

  -- The request left by a cycle.
  abbrev requested : D → Inputs → List Command → Bool
  requested d i commands =
      (step fs net (controller ch) d.world d.control i commands).0.master.restart_requested

  -- A cycle's work stops the executor exactly when a restart was requested. If it stops, the exit flag
  -- is set, the watchdog is not petted and nothing is published or written; if it goes on, the watchdog
  -- is petted once, the snapshot is published, and the outputs are handed to the bus.
  pub work_outcome :
      (d : D) (i : Inputs) (commands : List Command)
      → let (w, c, out, snap) = step fs net (controller ch) d.world d.control i commands in
        let (d', stopped) = work fs net ch edges d i commands in
        (stopped ≡ w.master.restart_requested)
        × (stopped ≡ true
            → (d'.exit_flag ≡ true)
              × (d'.watchdog ≡ d.watchdog)
              × (d'.link ≡ d.link)
              × (d'.world.master.writer ≡ w.master.writer))
        × (stopped ≡ false
            → (d'.exit_flag ≡ d.exit_flag)
              × (d'.watchdog ≡ edges.pet d.watchdog)
              × (d'.link ≡ edges.publish snap d.link)
              × (d'.world.master ≡ write ch (take_restart_request ch w.master).0 out))
  unfolding work finish take_restart_request
  work_outcome d i commands = ground arith

  -- The bus has been up, or maintenance mode was entered.
  abbrev pub IsSettled : D → Inputs → Type 0
  IsSettled d i = (i.healthy ≡ true) ⊎ (d.ever_up ≡ true) ⊎ (d.maintenance ≡ true)

  settled_lapse :
      (d : D) (i : Inputs) (elapsed : ℕ)
      → IsSettled d i
      → lapsed fs net ch edges d i elapsed ≡ false
  settled_lapse d i elapsed (inl h) = ground arith
  settled_lapse d i elapsed (inr (inl h)) = ground arith
  settled_lapse d i elapsed (inr (inr h)) = ground arith

  -- The daemon as the work finds it after the poll.
  abbrev pub met : D → WagoBus ch → Inputs → D
  met d b i = record d { world = record (d.world) { master = b }; ever_up = d.ever_up || i.healthy }

  pub item_settled :
      (fuel elapsed : ℕ) (d : D) (commands : List Command) (b : WagoBus ch) (i : Inputs)
      → poll ch fuel d.world.master ≡ some (b, i)
      → IsSettled d i
      → item fs net ch edges fuel d elapsed commands
        ≡ some (work fs net ch edges (met d b i) i commands)
  unfolding item
  item_settled fuel elapsed d commands b i e h =
      rw (e, polled) (rw (settled_lapse d i elapsed h) refl)

  -- Once the bus has been up, or in maintenance mode, an item whose commands do not switch the mode
  -- never stops the executor, however much time has passed.
  pub item_keeps_running :
      (fuel elapsed : ℕ) (d : D) (commands : List Command) (b : WagoBus ch) (i : Inputs)
      → poll ch fuel d.world.master ≡ some (b, i)
      → IsSettled d i
      → b.restart_requested ≡ false
      → All IsNoSwitch commands
      → (d' : D) × (item fs net ch edges fuel d elapsed commands ≡ some (d', false))
        × (d'.watchdog ≡ edges.pet d.watchdog)
  item_keeps_running fuel elapsed d commands b i e h r q =
      let m = met d b i in
      let (stops, ended, went) = work_outcome m i commands in
      let (n, same) = step_links fs net (controller ch) m.world m.control i commands q in
      let on : (work fs net ch edges m i commands).1 ≡ false =
        stops ∙ ap (λ (x : WagoBus ch). x.restart_requested) same ∙ r in
      let (x, pets, y, z) = went on in
      (
        (work fs net ch edges m i commands).0,
        item_settled fuel elapsed d commands b i e h ∙ ap some (ground (arith, on)),
        pets,
      )

  -- If the bus was never up, outside maintenance mode, the item at or after 12 s on an unhealthy bus
  -- stops the executor for a restart: no cycle is run, and the watchdog is not petted.
  pub item_deadline :
      (fuel elapsed : ℕ) (d : D) (commands : List Command) (b : WagoBus ch) (i : Inputs)
      → poll ch fuel d.world.master ≡ some (b, i)
      → lapsed fs net ch edges d i elapsed ≡ true
      → item fs net ch edges fuel d elapsed commands
        ≡ some (record (met d b i) { exit_flag = true }, true)
  unfolding item
  item_deadline fuel elapsed d commands b i e l = rw (e, polled) (rw l refl)

module _ (fs : FileSystem) (edges : Edges) (c : Control fs) where
  -- What a number of fruitless rounds do: each pets the watchdog and publishes the fault snapshot.
  pub waited : ℕ → edges.Watchdog × edges.Link → edges.Watchdog × edges.Link
  waited zero s = s
  waited (suc n) (wd, link) = waited n (edges.pet wd, edges.publish (idle_snapshot fs c fault) link)

  -- A wait of `n` rounds without a link, before a reading with one, pets the watchdog and publishes the
  -- fault snapshot exactly `n` times, and then ends.
  pub wait_for_carrier_lem :
      (n : ℕ) (r : LinkReading) (later : List LinkReading) (s : edges.Watchdog × edges.Link)
      → (r.up || r.has_carrier) ≡ true
      → wait_for_carrier fs edges c
          (replicate n (record { up = false; has_carrier = false }) ++ r ∷ later)
          s
        ≡ some (waited n s)
  unfolding wait_for_carrier waited
  wait_for_carrier_lem zero r later (wd, link) h = rw h refl
  wait_for_carrier_lem (suc n) r later (wd, link) h =
      wait_for_carrier_lem n r later (edges.pet wd, edges.publish (idle_snapshot fs c fault) link) h
