-- ===== src/Rig.antt =====
-- Panel and daemon together, in any interleaving: the loop of src/baler-ui/src/main.rs that sends
-- commands, the queue of the link, and the cycle of src/baler-daemon/src/main.rs that drains it. A frame
-- of the panel sees any mode, since snapshots may be late, and any of its commands may be dropped.
pub mod Locked
pub mod Deadman
pub mod Shown
use claas_rollant.Prelude.{Bool, true, false, List, [], ◌∷◌, ◌++◌, Option, none, some}
use claas_rollant.Ipc.{Mode, Command}
use claas_rollant.Counter.Files.{FileSystem}
use claas_rollant.Ports.{Inputs, NetworkController, BusController}
use claas_rollant.Control.{Control, World, step}
use claas_rollant.Ui.Nav.{ButtonEvent}
use claas_rollant.Ui.Panel.{Panel, Effect, send, save_lang, frame}

-- The commands among the effects of a frame.
abbrev pub sent : List Effect → List Command
sent [] = []
sent (send cmd ∷ es) = cmd ∷ sent es
sent (save_lang l ∷ es) = sent es

-- What the link delivers, by a list that says of each command whether it gets through.
abbrev pub deliver : List Bool → List Command → List Command
deliver (false ∷ luck) (cmd ∷ cmds) = deliver luck cmds
deliver (true ∷ luck) (cmd ∷ cmds) = cmd ∷ deliver luck cmds
deliver _ cmds = cmds

pub data Move : Type 0 where
  draw : Mode → List ButtonEvent → List Bool → Move
  scan_cycle : Inputs → Move

module _ (fs : FileSystem) (net : NetworkController) (bus : BusController) where
  pub record Rig : Type 0 where
    pub panel : Panel
    pub queue : List Command
    pub world : World fs net bus
    pub control : Control fs

  abbrev after_frame : List Bool → Rig → Option (Panel × List Effect) → Option Rig
  after_frame luck r none = none
  after_frame luck r (some (p, es)) =
      some (record r { panel = p; queue = r.queue ++ deliver luck (sent es) })

  -- A move: none stands for a panic of the panel.
  unfoldable pub move : Move → Rig → Option Rig
  move (draw m evs luck) r = after_frame luck r (frame m evs r.panel)
  move (scan_cycle i) r =
      let (w, c, out, snap) = step fs net bus r.world r.control i r.queue in
      some (record r { queue = []; world = w; control = c })

  unfoldable pub moves : List Move → Rig → Option Rig
  moves [] r = some r
  moves (mv ∷ mvs) r = elim (move mv r) [ none ↦ none | some r' ↦ moves mvs r' ]
