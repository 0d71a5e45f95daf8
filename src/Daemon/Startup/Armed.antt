-- ===== src/Daemon/Startup/Armed.antt =====
-- The hardware watchdog over the whole life of the process.
use claas_rollant.Prelude.{
  ℕ, ◌≡◌, ◌∙◌, Bool, true, false, Option, none, some, Result, ok, err, is_ok, arith, refl,
}
use claas_rollant.Prelude.Phases.{
  Leaves, Leaves-intro, Leaves-some, continue_with, continue_with-Leaves, from_err-Leaves,
  placed-Leaves, placed, from_err,
}
use claas_rollant.Control
use claas_rollant.Watchdog.{WatchdogPetter, configured, opened, build_wd, open_petter}
use claas_rollant.Watchdog.Armed.{IsArmed, pet-IsArmed, drop_disarms, IsArmed-intro}
use claas_rollant.Transport.Links.{DaemonLink}
use claas_rollant.EthercatIo.{WagoBus}
use claas_rollant.Daemon.{Daemon}
use claas_rollant.Daemon.Fed.{IsFed, run_items-IsFed, WaitFed, wait_for_carrier-WaitFed}
use claas_rollant.Daemon.Startup.{
  Platform, Machine, Course, DynError, watchdog_failed, net, edges, captured, left, execute,
  closing, link_ready, raise_link, ethercat_steps, run_ethercat, main,
}

module _ (pl : Platform) where
  open pl use {fs, driver, iox, channels, taktora}

  abbrev Armed : Machine pl → Type 0
  Armed x = IsArmed driver x.device

  abbrev Outcome : Type 0
  Outcome = Option (Machine pl × Result (Unit {0}) (DynError pl))

  left-Armed :
      (wd : WatchdogPetter driver) (link : DaemonLink iox)
      (returned : Result (Unit {0}) taktora.ExecutorError) (x : Machine pl)
      (o : Option (Daemon fs (net pl) channels (edges pl wd link) × Bool))
      → IsFed fs (net pl) channels (edges pl wd link) (IsArmed driver) (pet-IsArmed driver wd) o
      → Leaves Armed (left pl wd link returned x o)
  unfolding Leaves
  left-Armed wd link returned x none p = tt
  left-Armed wd link returned x (some (d, stopped)) p = p

  execute-Armed :
      (co : Course pl) (wd : WatchdogPetter driver) (link : DaemonLink iox) (c : Control.Control fs)
      (bus : WagoBus channels) (x : Machine pl)
      → Armed x
      → Leaves Armed (execute pl co wd link c bus x)
  execute-Armed co wd link c bus x p = from_err-Leaves Armed _ _ (
      left-Armed wd link co.returned x _ (
        run_items-IsFed fs (net pl) channels (edges pl wd link) (IsArmed driver)
          (pet-IsArmed driver wd) co.fuel co.rounds (captured pl wd link c bus x) p))

  link_ready-Armed :
      (wd : WatchdogPetter driver) (link : DaemonLink iox) (c : Control.Control fs) (x : Machine pl)
      (o : Option (driver.Device × iox.World))
      → WaitFed fs (edges pl wd link) c (IsArmed driver) (pet-IsArmed driver wd) o
      → Leaves Armed (link_ready pl x o)
  unfolding Leaves
  link_ready-Armed wd link c x none p = tt
  link_ready-Armed wd link c x (some (device, shared)) p = p

  -- A phase on a part of the machine other than the watchdog.
  on_other-Armed :
      {T E A : Type 0}
      → (x : Machine pl) (f : E → DynError pl) (put : T → Machine pl → Machine pl)
        (o : Option (T × Result A E))
      → ((t : T) → Armed (put t x))
      → Leaves Armed (from_err f (placed x put o))
  on_other-Armed x f put o h = from_err-Leaves Armed f _ (placed-Leaves Armed x put o h)

  steps-Armed :
      (co : Course pl) (wd : WatchdogPetter driver) (x : Machine pl)
      → Armed x
      → Leaves Armed (ethercat_steps pl co wd x)
  steps-Armed co wd x p =
      continue_with-Leaves Armed _ _
        (λ c x1 p1.
          continue_with-Leaves Armed _ _
            (λ link x2 p2.
              continue_with-Leaves Armed _ _
                (λ waited x3 p3.
                  continue_with-Leaves Armed _ _
                    (λ built x4 p4.
                      continue_with-Leaves Armed _ _
                        (λ bus x5 p5.
                          continue_with-Leaves Armed _ _
                            (λ added x6 p6. execute-Armed co wd link c bus x6 p6)
                            (on_other-Armed x5 _ _ _ (λ t. p5)))
                        (on_other-Armed x4 _ _ _ (λ t. p4)))
                    (on_other-Armed x3 _ _ _ (λ t. p3)))
                (link_ready-Armed wd link c (raise_link pl x2) _ (
                  wait_for_carrier-WaitFed fs (edges pl wd link) c (IsArmed driver)
                    (pet-IsArmed driver wd) co.readings x2.device x2.shared p2)))
            (on_other-Armed x1 _ _ _ (λ t. p1)))
        (from_err-Leaves Armed _ _ (Leaves-intro Armed _ _ p))

  -- What the opening of the petter leaves: a petter without the magic close on an armed timer, or an
  -- error.
  abbrev Built : driver.Device × Result (WatchdogPetter driver) driver.IoError → Type 0
  Built (d, ok wd) = IsArmed driver d × (wd.magic_close ≡ false)
  Built (d, err e) = driver.armed d ≡ true

  set-Built :
      (f : driver.File) (r : driver.Device × Result ℕ driver.IoError)
      → IsArmed driver r.0
      → Built (opened driver false f r)
  set-Built f (d, ok granted) h = (h, refl)
  set-Built f (d, err e) h = driver.close_disarms f d ∙ rw (h.kept) h.running

  opened-Built :
      (r : driver.Device × Result driver.File driver.IoError)
      → is_ok r.1 ≡ true
      → IsArmed driver r.0
      → Built (configured driver (some 15) false r)
  opened-Built (d, err e) o h = ground (arith, o)
  opened-Built (d, ok f) o h =
      let (a, b) = driver.settimeout_keeps f 15 d in
      set-Built f _ (record { running = a ∙ h.running; kept = b ∙ h.kept })

  build_wd-Built :
      (d : driver.Device) → is_ok (driver.open_write d).1 ≡ true → Built (build_wd driver d)
  unfolding build_wd open_petter
  build_wd-Built d h = opened-Built _ h (IsArmed-intro driver _ (driver.open_arms d h))

  abbrev Running : Machine pl → Type 0
  Running x = driver.armed x.device ≡ true

  closing-Running :
      (wd : WatchdogPetter driver) (o : Outcome)
      → wd.magic_close ≡ false
      → Leaves Armed o
      → Leaves Running (closing pl wd o)
  unfolding Leaves
  closing-Running wd none m h = tt
  closing-Running wd (some (x, r)) m h = (drop_disarms driver wd x.device h).0 m

  main-Running :
      (co : Course pl) (x : Machine pl)
      (r : driver.Device × Result (WatchdogPetter driver) driver.IoError)
      → Built r
      → Leaves Running (
          continue_with
            (run_ethercat pl co)
            (from_err watchdog_failed (placed x (λ d y. record y { device = d }) (some r))))
  unfolding run_ethercat Leaves continue_with from_err placed
  main-Running co x (d, err e) b = b
  main-Running co x (d, ok wd) b = closing-Running wd _ b.1 (steps-Armed co wd _ b.0)

  -- However the daemon's process ends, by an error of any phase of its start, by an error of the
  -- executor, for a restart or with success: if /dev/watchdog could be opened, the hardware timer still
  -- runs after the process.
  pub main_leaves_armed :
      (co : Course pl) (x x' : Machine pl) (r : Result (Unit {0}) (DynError pl))
      → is_ok (driver.open_write x.device).1 ≡ true
      → main pl co x ≡ some (x', r)
      → driver.armed x'.device ≡ true
  unfolding main
  main_leaves_armed co x x' r h e =
      Leaves-some Running (main pl co x) x' r
        (main-Running co x (build_wd driver x.device) (build_wd-Built x.device h)) e
