-- ===== src/Rig/Shown.antt =====
-- What the operator sees of the daemon, across the link: the daemon's cycles publish snapshots, some of
-- which are lost, and the panel's rounds drain the link and draw. Both run in any order, on the code of
-- src/baler-daemon/src/main.rs and src/baler-ui/src/main.rs.
pub mod Fresh
pub mod Loss
pub mod Wrap
use claas_rollant.Prelude.{
  ℕ, suc, Bool, true, false, List, [], ◌∷◌, ◌++◌, Option, none, some, Result, ok, if◌then◌else◌,
  length, ◌≡◌,
}
use claas_rollant.Ipc.{Command, StateSnapshot}
use claas_rollant.Counter.Files.{FileSystem}
use claas_rollant.Ports.{Inputs, NetworkController, BusController}
use claas_rollant.Control.{Control, World, step}
use claas_rollant.Transport.{MessageReader, drain_latest, first_snapshot}
use claas_rollant.Ui.Nav.{ButtonEvent}
use claas_rollant.Ui.Panel.{Panel, Effect}
use claas_rollant.Ui.Loop.{Display, round, start}
use claas_rollant.Rig.{sent, deliver}

-- The state channel as the panel reads it: the snapshots on the way, oldest first.
abbrev take_one : List StateSnapshot → List StateSnapshot × Result (Option StateSnapshot) (Unit {0})
take_one [] = ([], ok none)
take_one (snap ∷ rest) = (rest, ok (some snap))

abbrev pub channel : MessageReader StateSnapshot
channel = record { Reader = List StateSnapshot; RecvError = Unit {0}; try_recv = take_one }

module _ (fs : FileSystem) (net : NetworkController) (bus : BusController) where
  -- `published` is what got onto the link, newest first, on top of the panel's own first snapshot; no
  -- step reads it.
  pub record Site : Type 0 where
    pub display : Display
    pub last : StateSnapshot
    pub states : List StateSnapshot
    pub queue : List Command
    pub world : World fs net bus
    pub control : Control fs
    pub published : List StateSnapshot

  abbrev on_link : Bool → StateSnapshot → Site → Site
  on_link true snap s = record s { states = s.states ++ snap ∷ []; published = snap ∷ s.published }
  on_link false snap s = s

  -- A cycle of the daemon; `heard` says whether its snapshot gets onto the link.
  abbrev pub scanned : Inputs → Bool → Site → Site
  scanned i heard s =
      let (w, c, out, snap) = step fs net bus s.world s.control i s.queue in
      on_link heard snap (record s { queue = []; world = w; control = c })

  abbrev pub shown :
      List Bool
      → Site
      → List StateSnapshot × StateSnapshot
      → Option (Display × List Effect)
      → Option Site
  shown luck s r none = none
  shown luck s (rest, snap) (some (d, es)) = some (record s {
    display = d;
    last = snap;
    states = rest;
    queue = s.queue ++ deliver luck (sent es);
  })

  abbrev pub rounded :
      ℕ
      → List ButtonEvent
      → List Bool
      → Site
      → Option (List StateSnapshot × StateSnapshot)
      → Option Site
  rounded t evs luck s none = none
  rounded t evs luck s (some r) = shown luck s r (round t r.1 evs s.display)

  -- A round of the panel on the newest snapshot: the time, the keys, and which commands get through.
  abbrev pub drawn : ℕ → List ButtonEvent → List Bool → Site → Option Site
  drawn t evs luck s =
      rounded t evs luck s (drain_latest channel (suc (length s.states)) s.states s.last)

  -- The steps of the two processes.
  pub data Happens : Site → Site → Type 0 where
    scans : (s : Site) (i : Inputs) (heard : Bool) → Happens s (scanned i heard s)
    draws :
        (s s' : Site) (t : ℕ) (evs : List ButtonEvent) (luck : List Bool)
        → drawn t evs luck s ≡ some s'
        → Happens s s'

  -- The sites that come about from one.
  pub data Becomes (s0 : Site) : Site → Type 0 where
    begins : Becomes s0 s0
    goes : {s s' : Site} → Becomes s0 s → Happens s s' → Becomes s0 s'

  -- Both processes at their start, with nothing on the link.
  abbrev pub opening : Panel → World fs net bus → Control fs → Site
  opening p w c = record {
    display = start p first_snapshot;
    last = first_snapshot;
    states = [];
    queue = [];
    world = w;
    control = c;
    published = first_snapshot ∷ [];
  }
