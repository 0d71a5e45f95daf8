-- ===== src/Daemon/Backstop.antt =====
-- The backstop of the bring-up: a bus that never comes up makes the process end for a fresh scan.
use claas_rollant.Prelude.{
  ℕ, ◌<◌, ◌≤◌, ◌≡◌, ◌≢◌, refl, ap, ◌∙◌, true, false, ◌||◌, List, [], ◌∷◌, ◌++◌, All, some, ok, err,
  arith, length,
}
use claas_rollant.Ipc.{Command, ethernet, Mode}
use claas_rollant.State
use claas_rollant.Counter.Files.{FileSystem}
use claas_rollant.Ports.{Inputs, NetworkController}
use claas_rollant.Control.{step, snapshot}
use claas_rollant.Control.NoSwitch.{IsNoSwitch, step_links, step_stays}
use claas_rollant.EthercatIo.{Channels, WagoBus, controller, kind_to_u8, up, poll, is_healthy}
use claas_rollant.EthercatIo.Bus.{poll_total}
use claas_rollant.Daemon.{
  restart_wanted, Edges, Round, Daemon, work, item, exit_status, finish, bringup_deadline, lapsed,
  polled,
}
use claas_rollant.Daemon.Cycles.{work_outcome, item_deadline, met}
use claas_rollant.Daemon.Process.{run_items, arrive, pets, write_request}

module _ (fs : FileSystem) (net : NetworkController) (ch : Channels) (edges : Edges) where
  abbrev D : Type 0
  D = Daemon fs net ch edges

  -- The bus was never up, and neither maintenance nor a restart was asked for.
  pub record IsWaiting (d : D) : Type 0 where
    pub never_up : d.ever_up ≡ false
    pub no_maintenance : d.maintenance ≡ false
    pub no_ethernet : d.control.state.mode ≢ ethernet
    pub no_restart : d.world.master.restart_requested ≡ false
    pub no_exit : d.exit_flag ≡ false

  not_ethernet : (m : Mode) → m ≢ ethernet → State.is_ethernet m ≡ false
  not_ethernet m h = ground arith

  work_bringup :
      (d : D) (i : Inputs) (commands : List Command)
      → let (w, c, out, snap) = step fs net (controller ch) d.world d.control i commands in
        let d' = (work fs net ch edges d i commands).0 in
        (d'.ever_up ≡ d.ever_up)
        × (d'.maintenance ≡ (d.maintenance || State.is_ethernet c.state.mode))
        × (d'.control ≡ c)
  unfolding work finish step snapshot
  work_bringup d i commands = ground arith

  work-IsWaiting :
      (d : D) (i : Inputs) (commands : List Command)
      → IsWaiting d
      → All IsNoSwitch commands
      → let (d', stopped) = work fs net ch edges d i commands in
        (stopped ≡ false) × (d'.watchdog ≡ edges.pet d.watchdog) × IsWaiting d'
  work-IsWaiting d i commands h q =
      let (stops, ended, went) = work_outcome fs net ch edges d i commands in
      let (n, same) = step_links fs net (controller ch) d.world d.control i commands q in
      let on : (work fs net ch edges d i commands).1 ≡ false =
        stops ∙ ap (λ (x : WagoBus ch). x.restart_requested) same ∙ h.no_restart in
      let (exit_same, pets, published, written) = went on in
      let (up_same, in_maintenance, control) = work_bringup d i commands in
      let stays = step_stays fs net (controller ch) d.world d.control i commands q h.no_ethernet in
      (
        on,
        pets,
        record {
          never_up = up_same ∙ h.never_up;
          no_maintenance = in_maintenance ∙ rw (h.no_maintenance) (not_ethernet _ stays);
          no_ethernet = rw control stays;
          no_restart =
              ap (λ (x : WagoBus ch). x.restart_requested) written
              ∙ write_request fs net ch edges _ _;
          no_exit = exit_same ∙ h.no_exit;
        },
      )

  item_early :
      (fuel elapsed : ℕ) (d : D) (commands : List Command) (b : WagoBus ch) (i : Inputs)
      → poll ch fuel d.world.master ≡ some (b, i)
      → elapsed < bringup_deadline
      → item fs net ch edges fuel d elapsed commands
        ≡ some (work fs net ch edges (met fs net ch edges d b i) i commands)
  unfolding item
  item_early fuel elapsed d commands b i e l =
      let soon : lapsed fs net ch edges d i elapsed ≡ false = ground arith in
      rw (e, polled) (rw soon refl)

  module _ (pending : ch.Reader → ℕ)
      (received : (r r' : ch.Reader) (v : ℕ)
        → ch.try_recv r ≡ (r', ok (some v))
        → pending r' < pending r) where
    -- A call that the fuel is enough for, on a bus that is not up.
    abbrev pub IsDown : ℕ → Round ch → Type 0
    IsDown fuel r = (pending r.reader < fuel) × (r.health ≢ kind_to_u8 up)

    -- Such a call before the deadline, without a mode command.
    abbrev pub IsEarly : ℕ → Round ch → Type 0
    IsEarly fuel r = IsDown fuel r × (r.elapsed < bringup_deadline) × All IsNoSwitch r.commands

    -- What the poll of a call on such a bus gives.
    down_poll :
        (fuel : ℕ) (r : Round ch) (d : D)
        → IsDown fuel r
        → (b : WagoBus ch) × (i : Inputs) × (poll ch fuel (arrive fs net ch edges r d).world.master
            ≡ some (b, i))
          × (b.restart_requested ≡ d.world.master.restart_requested)
          × (i.healthy ≡ false)
    unfolding is_healthy
    down_poll fuel r d h =
        let (b, i, run, attached, asked, health) =
          poll_total ch pending received fuel (arrive fs net ch edges r d).world.master h.0 in
        (b, i, run, asked, health ∙ ground (arith, h.1))

    met-IsWaiting :
        (r : Round ch) (d : D) (b : WagoBus ch) (i : Inputs)
        → IsWaiting d
        → b.restart_requested ≡ d.world.master.restart_requested
        → i.healthy ≡ false
        → IsWaiting (met fs net ch edges (arrive fs net ch edges r d) b i)
    met-IsWaiting r d b i h asked down = record {
      never_up = ground (arith, h.never_up, down);
      no_maintenance = h.no_maintenance;
      no_ethernet = h.no_ethernet;
      no_restart = asked ∙ h.no_restart;
      no_exit = h.no_exit;
    }

    early-IsWaiting :
        (fuel : ℕ) (r : Round ch) (d : D)
        → IsWaiting d
        → IsEarly fuel r
        → (d' : D) × (item fs net ch edges fuel (arrive fs net ch edges r d) r.elapsed r.commands
            ≡ some (d', false))
          × (d'.watchdog ≡ edges.pet d.watchdog)
          × IsWaiting d'
    early-IsWaiting fuel r d h (down, soon, q) =
        let (b, i, run, asked, low) = down_poll fuel r d down in
        let m = met fs net ch edges (arrive fs net ch edges r d) b i in
        let (on, petted, waiting) =
          work-IsWaiting m i r.commands (met-IsWaiting r d b i h asked low) q in
        (
          (work fs net ch edges m i r.commands).0,
          item_early fuel r.elapsed (arrive fs net ch edges r d) r.commands b i run soon
              ∙ ap some (ground (arith, on)),
          petted,
          waiting,
        )

    late_stops :
        (fuel : ℕ) (r : Round ch) (d : D)
        → IsWaiting d
        → IsDown fuel r
        → bringup_deadline ≤ r.elapsed
        → (d' : D) × (item fs net ch edges fuel (arrive fs net ch edges r d) r.elapsed r.commands
            ≡ some (d', true))
          × (d'.watchdog ≡ d.watchdog)
          × (d'.exit_flag ≡ true)
    late_stops fuel r d h down late =
        let (b, i, run, asked, low) = down_poll fuel r d down in
        let a = arrive fs net ch edges r d in
        let gone : lapsed fs net ch edges a i r.elapsed ≡ true =
          ground (arith, h.never_up, h.no_maintenance, low) in
        (
          record (met fs net ch edges a b i) { exit_flag = true },
          item_deadline fs net ch edges fuel r.elapsed a r.commands b i run gone,
          refl,
          refl,
        )

    -- If each value received leaves fewer pending: a process whose bus was never up pets the watchdog
    -- once in each call before the deadline of 12 s, if the bus is down and no command switches the
    -- mode, and is stopped by the first call at or after the deadline on a bus that is down. It then ends
    -- with the error that asks for a fresh process, and the calls after it do not run.
    pub process_gives_up :
        {E : Type 0}
        → (fuel : ℕ) (early : List (Round ch)) (last : Round ch) (later : List (Round ch)) (d : D)
        → IsWaiting d
        → All (IsEarly fuel) early
        → IsDown fuel last
        → bringup_deadline ≤ last.elapsed
        → (d' : D) × (run_items fs net ch edges fuel (early ++ last ∷ later) d ≡ some (d', true))
          × (d'.watchdog ≡ pets fs net ch edges (length early) d.watchdog)
          × (exit_status fs net ch edges {E = E} (ok tt) d' ≡ err restart_wanted)
    unfolding run_items exit_status
    process_gives_up {E} fuel [] last later d h c down late =
        let (d1, e, same, flag) = late_stops fuel last d h down late in
        (d1, rw (e, run_items) refl, same, rw flag refl)
    process_gives_up {E} fuel (r ∷ rs) last later d h c down late =
        let (d1, e, petted, waiting) = early-IsWaiting fuel r d h c.0 in
        let (d2, rest, all_petted, status) =
          process_gives_up {E = E} fuel rs last later d1 waiting c.1 down late in
        (
          d2,
          rw (e, run_items) rest,
          all_petted ∙ ap (pets fs net ch edges (length rs)) petted,
          status,
        )
