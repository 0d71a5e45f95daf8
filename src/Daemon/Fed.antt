-- ===== src/Daemon/Fed.antt =====
-- What holds of the watchdog's state whatever the process meets: all that the process does to it is to
-- pet it.
use claas_rollant.Prelude.{
  ℕ, sym, subst, Bool, true, false, ◌||◌, List, [], ◌∷◌, Option, none, some, if◌then◌else◌,
  Bool-cases, inl, inr,
}
use claas_rollant.Ipc.{Command, fault}
use claas_rollant.Counter.Files.{FileSystem}
use claas_rollant.Ports.{Inputs, NetworkController}
use claas_rollant.Control.{Control, idle_snapshot}
use claas_rollant.EthercatIo.{Channels, WagoBus, poll}
use claas_rollant.Daemon.{
  Edges, Round, LinkReading, Daemon, lapsed, stop, polled, work, item, wait_for_carrier,
}
use claas_rollant.Daemon.Cycles.{work_outcome, met}
use claas_rollant.Daemon.Process.{run_items, arrive}

module _ (fs : FileSystem) (net : NetworkController) (ch : Channels) (edges : Edges)
    (P : edges.Watchdog → Type 0) (kept : (wd : edges.Watchdog) → P wd → P (edges.pet wd)) where
  abbrev D : Type 0
  D = Daemon fs net ch edges

  -- The watchdog's state after some calls of the item, if their fuel was enough.
  abbrev pub IsFed : Option (D × Bool) → Type 0
  IsFed none = Unit {0}
  IsFed (some (d, stopped)) = P d.watchdog

  work-IsFed :
      (d : D) (i : Inputs) (commands : List Command)
      → P d.watchdog
      → IsFed (some (work fs net ch edges d i commands))
  work-IsFed d i commands p =
      let (stops, ended, went) = work_outcome fs net ch edges d i commands in
      elim (Bool-cases (work fs net ch edges d i commands).1) [
        | inl y ↦ let (flag, same, link, writer) = ended y in subst P (sym same) p
        | inr n ↦
            let (flag, petted, link, master) = went n in subst P (sym petted) (kept d.watchdog p)
      ]

  chosen-IsFed :
      (late : Bool) (d : D) (i : Inputs) (commands : List Command)
      → P d.watchdog
      → IsFed (some (if late then stop fs net ch edges d else work fs net ch edges d i commands))
  chosen-IsFed true d i commands p = p
  chosen-IsFed false d i commands p = work-IsFed d i commands p

  polled-IsFed :
      (d : D) (elapsed : ℕ) (commands : List Command) (o : Option (WagoBus ch × Inputs))
      → P d.watchdog
      → IsFed (polled fs net ch edges d elapsed commands o)
  polled-IsFed d elapsed commands none p = tt
  polled-IsFed d elapsed commands (some (b, i)) p =
      chosen-IsFed (lapsed fs net ch edges d i elapsed) (met fs net ch edges d b i) i commands p

  later-IsFed :
      (rest : D → Option (D × Bool)) (o : Option (D × Bool))
      → ((d : D) → P d.watchdog → IsFed (rest d))
      → IsFed o
      → IsFed (elim o [
        | none ↦ none
        | some t ↦ elim t.1 [ true ↦ some (t.0, true) | false ↦ rest t.0 ]
      ])
  later-IsFed rest none h p = tt
  later-IsFed rest (some (d, true)) h p = p
  later-IsFed rest (some (d, false)) h p = h d p

  -- What petting keeps true of the watchdog's state, any calls of the item keep true.
  pub run_items-IsFed :
      (fuel : ℕ) (rs : List (Round ch)) (d : D)
      → P d.watchdog
      → IsFed (run_items fs net ch edges fuel rs d)
  unfolding run_items item
  run_items-IsFed fuel [] d p = p
  run_items-IsFed fuel (r ∷ rs) d p =
      let a = arrive fs net ch edges r d in
      later-IsFed (run_items fs net ch edges fuel rs)
        (item fs net ch edges fuel a r.elapsed r.commands) (run_items-IsFed fuel rs)
        (polled-IsFed a r.elapsed r.commands (poll ch fuel a.world.master) p)

module _ (fs : FileSystem) (edges : Edges) (c : Control fs) (P : edges.Watchdog → Type 0)
    (kept : (wd : edges.Watchdog) → P wd → P (edges.pet wd)) where
  abbrev pub WaitFed : Option (edges.Watchdog × edges.Link) → Type 0
  WaitFed none = Unit {0}
  WaitFed (some (wd, link)) = P wd

  found-WaitFed :
      (found : Bool) (s : edges.Watchdog × edges.Link) (rest : Option (edges.Watchdog × edges.Link))
      → P s.0
      → WaitFed rest
      → WaitFed (if found then some s else rest)
  found-WaitFed true s rest p q = p
  found-WaitFed false s rest p q = q

  -- The same for the wait for the carrier.
  pub wait_for_carrier-WaitFed :
      (rs : List LinkReading) (wd : edges.Watchdog) (link : edges.Link)
      → P wd
      → WaitFed (wait_for_carrier fs edges c rs (wd, link))
  unfolding wait_for_carrier
  wait_for_carrier-WaitFed [] wd link p = tt
  wait_for_carrier-WaitFed (r ∷ rs) wd link p =
      found-WaitFed (r.up || r.has_carrier) (wd, link) _ p
        (wait_for_carrier-WaitFed rs (edges.pet wd) (edges.publish (idle_snapshot fs c fault) link)
          (kept wd p))
