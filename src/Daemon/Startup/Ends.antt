-- ===== src/Daemon/Startup/Ends.antt =====
-- The fuel of the process is enough: `main` gives a result for any calls of the item that the executor makes.
use claas_rollant.Prelude.{
  ℕ, ◌<◌, ◌≡◌, refl, ap, Bool, true, false, ◌||◌, List, [], ◌∷◌, All, Option, none, some, Result,
  ok, arith, is_some, if◌then◌else◌, Bool-cases, inl, inr,
}
use claas_rollant.Prelude.Phases.{continue_with-is_some, from_err-is_some, placed-is_some}
use claas_rollant.Control as Control
use claas_rollant.Counter.Files.{FileSystem}
use claas_rollant.Ports.{NetworkController}
use claas_rollant.Watchdog.{WatchdogPetter}
use claas_rollant.Transport.Links.{DaemonLink}
use claas_rollant.Transport.Links.Opening.{links_total}
use claas_rollant.EthercatIo.{Channels}
use claas_rollant.EthercatIo.Bus.{poll_total}
use claas_rollant.Daemon.{Edges, Round, LinkReading, Daemon, item, polled, wait_for_carrier}
use claas_rollant.Daemon.Process.{run_items, arrive}
use claas_rollant.Daemon.Startup.{
  Platform, Machine, Course, DynError, net, edges, captured, left, closing, link_ready, raise_link,
  ethercat_steps, run_ethercat, main,
}

module _ {A : Type 0} where
  witness_of : (o : Option A) → is_some o ≡ true → (a : A) × (o ≡ some a)
  witness_of none h = ground (arith, h)
  witness_of (some a) h = (a, refl)

  if-is_some :
      (now : Bool) (a : A) (rest : Option A)
      → is_some rest ≡ true
      → is_some (if now then some a else rest) ≡ true
  if-is_some true a rest h = refl
  if-is_some false a rest h = h

-- Some reading of the link files is usable.
abbrev pub has_link : List LinkReading → Bool
has_link [] = false
has_link (r ∷ rs) = (r.up || r.has_carrier) || has_link rs

module _ (fs : FileSystem) (edges : Edges) (c : Control.Control fs) where
  wait-is_some :
      (rs : List LinkReading) (s : edges.Watchdog × edges.Link)
      → has_link rs ≡ true
      → is_some (wait_for_carrier fs edges c rs s) ≡ true
  unfolding wait_for_carrier
  wait-is_some [] s h = ground (arith, h)
  wait-is_some (r ∷ rs) (wd, link) h = elim (Bool-cases (r.up || r.has_carrier)) [
    | inl y ↦ rw y refl
    | inr n ↦ if-is_some (r.up || r.has_carrier) _ _ (wait-is_some rs _ (ground (arith, h, n)))
  ]

module _ (fs : FileSystem) (net : NetworkController) (ch : Channels) (edges : Edges)
    (pending : ch.Reader → ℕ)
    (received : (r r' : ch.Reader) (v : ℕ)
      → ch.try_recv r ≡ (r', ok (some v))
      → pending r' < pending r) where
  abbrev D : Type 0
  D = Daemon fs net ch edges

  later-is_some :
      (rest : D → Option (D × Bool)) (o : Option (D × Bool))
      → ((d : D) → is_some (rest d) ≡ true)
      → is_some o ≡ true
      → is_some (elim o [
        | none ↦ none
        | some t ↦ elim t.1 [ true ↦ some (t.0, true) | false ↦ rest t.0 ]
      ])
        ≡ true
  later-is_some rest none h p = p
  later-is_some rest (some (d, true)) h p = refl
  later-is_some rest (some (d, false)) h p = h d

  -- The fuel is enough for the polls of every call.
  pub run_items-is_some :
      (fuel : ℕ) (rs : List (Round ch)) (d : D)
      → All (λ r. pending r.reader < fuel) rs
      → is_some (run_items fs net ch edges fuel rs d) ≡ true
  unfolding run_items item
  run_items-is_some fuel [] d h = refl
  run_items-is_some fuel (r ∷ rs) d h =
      let a = arrive fs net ch edges r d in
      let (b, i, run, attached, asked, health) =
        poll_total ch pending received fuel a.world.master h.0 in
      later-is_some (run_items fs net ch edges fuel rs)
        (item fs net ch edges fuel a r.elapsed r.commands) (λ d'. run_items-is_some fuel rs d' h.1)
        (ap (λ o. is_some (polled fs net ch edges a r.elapsed r.commands o)) run)

module _ (pl : Platform) where
  open pl use {fs, driver, iox, channels, taktora}

  abbrev Outcome : Type 0
  Outcome = Option (Machine pl × Result (Unit {0}) (DynError pl))

  left-is_some :
      (wd : WatchdogPetter driver) (link : DaemonLink iox)
      (returned : Result (Unit {0}) taktora.ExecutorError) (x : Machine pl)
      (o : Option (Daemon fs (net pl) channels (edges pl wd link) × Bool))
      → is_some o ≡ true
      → is_some (left pl wd link returned x o) ≡ true
  left-is_some wd link returned x none p = p
  left-is_some wd link returned x (some (d, stopped)) p = refl

  link_ready-is_some :
      (x : Machine pl) (o : Option (driver.Device × iox.World))
      → is_some o ≡ true
      → is_some (link_ready pl x o) ≡ true
  link_ready-is_some x none p = p
  link_ready-is_some x (some (device, shared)) p = refl

  closing-is_some :
      (wd : WatchdogPetter driver) (o : Outcome)
      → is_some o ≡ true
      → is_some (closing pl wd o) ≡ true
  closing-is_some wd none p = p
  closing-is_some wd (some (x, r)) p = refl

  module _ (pending : channels.Reader → ℕ)
      (received : (r r' : channels.Reader) (v : ℕ)
        → channels.try_recv r ≡ (r', ok (some v))
        → pending r' < pending r) where
    steps-is_some :
        (co : Course pl) (wd : WatchdogPetter driver) (x : Machine pl)
        → has_link co.readings ≡ true
        → All (λ r. pending r.reader < co.fuel) co.rounds
        → is_some (ethercat_steps pl co wd x) ≡ true
    steps-is_some co wd x l h = continue_with-is_some _ _ (from_err-is_some _ _ refl) (λ c x1.
        continue_with-is_some _ _
          (let (r, e) = (links_total iox x1.shared).0 in
            from_err-is_some _ _ (placed-is_some _ _ _ (ap is_some e)))
          (λ link x2.
            continue_with-is_some _ _
              (link_ready-is_some (raise_link pl x2) _
                (wait-is_some fs (edges pl wd link) c co.readings (x2.device, x2.shared) l))
              (λ waited x3.
                continue_with-is_some _ _ (from_err-is_some _ _ (placed-is_some _ _ _ refl))
                  (λ built x4.
                    continue_with-is_some _ _ (from_err-is_some _ _ (placed-is_some _ _ _ refl))
                      (λ bus x5.
                        continue_with-is_some _ _ (from_err-is_some _ _ (placed-is_some _ _ _ refl))
                          (λ added x6. from_err-is_some _ _ (
                            left-is_some wd link co.returned x6 _ (
                              run_items-is_some fs (net pl) channels (edges pl wd link) pending
                                received co.fuel co.rounds (captured pl wd link c bus x6) h))))))))

    -- If some reading of the link files is usable, each value received leaves fewer pending, and the
    -- fuel is more than the values pending in each call of the item: whatever the disk, the watchdog,
    -- the link to the panel and taktora answer on the way, no fuel runs out, and `main` has a result once
    -- the executor has made those calls and returned.
    pub main_ends :
        (co : Course pl) (x : Machine pl)
        → has_link co.readings ≡ true
        → All (λ r. pending r.reader < co.fuel) co.rounds
        → (r : Machine pl × Result (Unit {0}) (DynError pl)) × (main pl co x ≡ some r)
    unfolding main run_ethercat
    main_ends co x l h = witness_of (main pl co x) (
        continue_with-is_some _ _ (from_err-is_some _ _ (placed-is_some _ _ _ refl))
          (λ wd x1. closing-is_some wd _ (steps-is_some co wd x1 l h)))
