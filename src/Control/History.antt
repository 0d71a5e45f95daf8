-- ===== src/Control/History.antt =====
-- Whole histories of cycles, listed newest first.
use claas_rollant.Prelude.{◌≡◌, false, ◌&&◌, List, [], ◌∷◌, ok}
use claas_rollant.Ipc.{Command}
use claas_rollant.Counter.Files.{FileSystem}
use claas_rollant.Ports.{Inputs, NetworkController, BusController}
use claas_rollant.Control.{Control, World, new, step}
use claas_rollant.Control.Invariant.{IsValid, step-IsValid}
use claas_rollant.Control.Safety.{step_interlock, new-IsValid}

abbrev pub History : Type 0
History = List (Inputs × List Command)

module _ (fs : FileSystem) (net : NetworkController) (bus : BusController) where
  pub record System : Type 0 where
    pub world : World fs net bus
    pub control : Control fs

  -- One more cycle.
  abbrev pub advance : System → Inputs × List Command → System
  advance s (i, cmds) =
      let (w, c, out, snap) = step fs net bus s.world s.control i cmds in
      record { world = w; control = c }

  unfoldable pub run : System → History → System
  run s [] = s
  run s (cycle ∷ earlier) = advance (run s earlier) cycle

  pub run-IsValid : (s : System) (h : History) → IsValid fs s.control → IsValid fs (run s h).control
  unfolding run
  run-IsValid s [] v = v
  run-IsValid s ((i, cmds) ∷ h) v =
      let t = run s h in step-IsValid fs net bus t.world t.control i cmds (run-IsValid s h v)

  -- After any history from the start of the daemon, with any counter file, the next cycle never drives
  -- the two knife outputs together.
  pub run_interlock :
      (path : fs.FilePath) (w : World fs net bus) {c : Control fs}
      → new fs path w.disk ≡ ok c
      → (h : History) (i : Inputs) (cmds : List Command)
      → let t = run (record { world = w; control = c }) h in
        let out = (step fs net bus t.world t.control i cmds).2 in
        (out.knives_in && out.knives_out) ≡ false
  run_interlock path w {c} e h i cmds =
      let s : System = record { world = w; control = c } in
      step_interlock fs net bus (run s h).world (run s h).control i cmds
        (run-IsValid s h (new-IsValid fs path w.disk e))
