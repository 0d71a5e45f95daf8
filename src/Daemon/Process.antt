-- ===== src/Daemon/Process.antt =====
-- The life of the EtherCAT process: the executor calls the control item once in each interval until the
-- item stops it. Between two calls new inputs arrive, the health changes and commands come in.
use claas_rollant.Prelude.{
  err, ℕ, zero, suc, ◌<◌, ◌≡◌, refl, ap, ◌∙◌, ◌⊎◌, inl, inr, Bool, true, false, List, [], ◌∷◌, All,
  Option, none, some, ok, arith, length,
}
use claas_rollant.Ipc.{Command, return_to_ethercat, ethernet}
use claas_rollant.Counter.Files.{FileSystem}
use claas_rollant.Ports.{Inputs, Outputs, NetworkController}
use claas_rollant.Control.{step}
use claas_rollant.Control.NoSwitch.{IsNoSwitch, step_links}
use claas_rollant.Control.Maintenance.{step_return}
use claas_rollant.EthercatIo.{restart, Channels, WagoBus, controller, write, take_restart_request}
use claas_rollant.EthercatIo.Bus.{poll_total}
use claas_rollant.Daemon.{Round, restart_wanted, Edges, Daemon, work, item, exit_status, finish}
use claas_rollant.Daemon.Cycles.{work_outcome, item_settled, met, IsSettled}

module _ (fs : FileSystem) (net : NetworkController) (ch : Channels) (edges : Edges) where
  abbrev D : Type 0
  D = Daemon fs net ch edges

  abbrev pub arrive : Round ch → D → D
  arrive r d = record d {
    world = record (d.world) {
      master = record (d.world.master) { reader = r.reader; health = r.health };
    };
  }

  -- The calls of the item; the second part is whether it stopped the executor.
  unfoldable pub run_items : ℕ → List (Round ch) → D → Option (D × Bool)
  run_items fuel [] d = some (d, false)
  run_items fuel (r ∷ rs) d = elim (item fs net ch edges fuel (arrive r d) r.elapsed r.commands) [
    | none ↦ none
    | some t ↦ elim t.1 [ true ↦ some (t.0, true) | false ↦ run_items fuel rs t.0 ]
  ]

  abbrev pub pets : ℕ → edges.Watchdog → edges.Watchdog
  pets zero wd = wd
  pets (suc n) wd = pets n (edges.pet wd)

  -- The bring-up is over and no restart is asked for.
  pub record IsRunning (d : D) : Type 0 where
    pub settled : (d.ever_up ≡ true) ⊎ (d.maintenance ≡ true)
    pub no_restart : d.world.master.restart_requested ≡ false
    pub no_exit : d.exit_flag ≡ false

  pub write_request :
      (b : WagoBus ch) (out : Outputs)
      → (write ch (take_restart_request ch b).0 out).restart_requested ≡ false
  unfolding write take_restart_request
  write_request b out = ground arith

  work_flags :
      (d : D) (i : Inputs) (commands : List Command)
      → let d' = (work fs net ch edges d i commands).0 in
        (d'.ever_up ≡ d.ever_up) × (d.maintenance ≡ true → d'.maintenance ≡ true)
  unfolding work finish
  work_flags d i commands = ground arith

  work-IsRunning :
      (d : D) (i : Inputs) (commands : List Command)
      → IsRunning d
      → All IsNoSwitch commands
      → let (d', stopped) = work fs net ch edges d i commands in
        (stopped ≡ false) × (d'.watchdog ≡ edges.pet d.watchdog) × IsRunning d'
  work-IsRunning d i commands h q =
      let (stops, ended, went) = work_outcome fs net ch edges d i commands in
      let (n, same) = step_links fs net (controller ch) d.world d.control i commands q in
      let on : (work fs net ch edges d i commands).1 ≡ false =
        stops ∙ ap (λ (x : WagoBus ch). x.restart_requested) same ∙ h.no_restart in
      let (exit_same, pets, published, written) = went on in
      let (up_same, in_maintenance) = work_flags d i commands in
      (
        on,
        pets,
        record {
          settled = elim h.settled [ inl u ↦ inl (up_same ∙ u) | inr m ↦ inr (in_maintenance m) ];
          no_restart = ap (λ (x : WagoBus ch). x.restart_requested) written ∙ write_request _ _;
          no_exit = exit_same ∙ h.no_exit;
        },
      )

  -- Work that leaves a request for a restart.
  returned :
      (d : D) (i : Inputs) (commands : List Command)
      → commands ≡ return_to_ethercat ∷ []
      → (step fs net
          (controller ch)
          d.world
          d.control
          i
          (return_to_ethercat ∷ [])).0.master.restart_requested
        ≡ true
      → let (d', stopped) = work fs net ch edges d i commands in
        (stopped ≡ true) × (d'.exit_flag ≡ true) × (d'.watchdog ≡ d.watchdog)
  returned d i commands c e =
      let (stops, ended, went) = work_outcome fs net ch edges d i commands in
      let on =
        stops
        ∙ ap
            (λ cmds.
              (step fs net (controller ch) d.world d.control i cmds).0.master.restart_requested)
            c
        ∙ e in
      let (flag, same, link, writer) = ended on in (on, flag, same)

  module _ (pending : ch.Reader → ℕ)
      (received : (r r' : ch.Reader) (v : ℕ)
        → ch.try_recv r ≡ (r', ok (some v))
        → pending r' < pending r) where
    -- A round that the fuel is enough for and that switches no mode.
    abbrev pub IsCalm : ℕ → Round ch → Type 0
    IsCalm fuel r = (pending r.reader < fuel) × All IsNoSwitch r.commands

    item-IsRunning :
        (fuel : ℕ) (r : Round ch) (d : D)
        → IsRunning d
        → IsCalm fuel r
        → (d' : D) × (item fs net ch edges fuel (arrive r d) r.elapsed r.commands
            ≡ some (d', false))
          × (d'.watchdog ≡ edges.pet d.watchdog)
          × IsRunning d'
    item-IsRunning fuel r d h c =
        let a = arrive r d in
        let (b, i, run, attached, asked, health) =
          poll_total ch pending received fuel a.world.master c.0 in
        let m = met fs net ch edges a b i in
        let up : IsSettled fs net ch edges a i = inr h.settled in
        let still : IsRunning m = record {
          settled = elim h.settled [ inl u ↦ inl (ground (arith, u)) | inr x ↦ inr x ];
          no_restart = asked ∙ h.no_restart;
          no_exit = h.no_exit;
        } in
        let (on, pets, running) = work-IsRunning m i r.commands still c.1 in
        (
          (work fs net ch edges m i r.commands).0,
          item_settled fs net ch edges fuel r.elapsed a r.commands b i run up
              ∙ ap some (ground (arith, on)),
          pets,
          running,
        )

    -- If each value received leaves fewer pending, the fuel of the polls is more than the values pending
    -- in each round, and no command switches the mode: a process whose bring-up is over runs any number
    -- of rounds, whatever inputs and health they meet, and in each it pets the watchdog once; the
    -- executor is never stopped, and the exit status, if the executor returned then, is success.
    pub process_stays_up :
        {E : Type 0}
        → (fuel : ℕ) (rs : List (Round ch)) (d : D) → IsRunning d
        → All (IsCalm fuel) rs
        → (d' : D) × (run_items fuel rs d ≡ some (d', false))
          × (d'.watchdog ≡ pets (length rs) d.watchdog)
          × (exit_status fs net ch edges {E = E} (ok tt) d' ≡ ok tt)
    unfolding run_items exit_status
    process_stays_up {E} fuel [] d h c = (d, refl, refl, rw (h.no_exit) refl)
    process_stays_up {E} fuel (r ∷ rs) d h c =
        let (d1, e, petted, running) = item-IsRunning fuel r d h c.0 in
        let (d2, rest, all_petted, success) = process_stays_up {E = E} fuel rs d1 running c.1 in
        (d2, rw (e, run_items) rest, all_petted ∙ ap (pets (length rs)) petted, success)

    -- With the same fuel: in Ethernet mode, outside manual-IO mode, a round whose only command is `ReturnToEthercat`
    -- stops the executor, and the process ends with the error that asks for a fresh one; the watchdog is not
    -- petted in that round, and the rounds after it do not run.
    pub process_returns :
        {E : Type 0}
        → (fuel : ℕ) (r : Round ch) (later : List (Round ch)) (d : D) → IsRunning d
        → d.control.manual_io_remaining ≡ 0
        → d.control.state.mode ≡ ethernet
        → pending r.reader < fuel
        → r.commands ≡ return_to_ethercat ∷ []
        → (d' : D) × (run_items fuel (r ∷ later) d ≡ some (d', true))
          × (exit_status fs net ch edges {E = E} (ok tt) d' ≡ err restart_wanted)
          × (d'.watchdog ≡ d.watchdog)
    unfolding run_items exit_status restart
    process_returns {E} fuel r later d h q m l c =
        let a = arrive r d in
        let (b, i, run, attached, asked, health) =
          poll_total ch pending received fuel a.world.master l in
        let n = met fs net ch edges a b i in
        let up : IsSettled fs net ch edges a i = inr h.settled in
        let (master, network, mode, ip) =
          step_return fs net (controller ch) n.world n.control i q m in
        let ended =
          returned n i r.commands c (ap (λ (x : WagoBus ch). x.restart_requested) master) in
        let last : D = (work fs net ch edges n i r.commands).0 in
        let stopped : item fs net ch edges fuel a r.elapsed r.commands ≡ some (last, true) =
          item_settled fs net ch edges fuel r.elapsed a r.commands b i run up
          ∙ ap some (ground (arith, ended.0)) in
        (last, rw (stopped, run_items) refl, rw (ended.1) refl, ended.2)
