-- ===== src/Rig/Locked/Cycles.antt =====
-- What a cycle of the specification leaves alone, on the commands that need no PIN.
use claas_rollant.Prelude.{◌-◌, ◌^◌, ◌≤◌, ◌≡◌, ◌≢◌, Bool, true, List, [], ◌∷◌, arith}
use claas_rollant.Ipc.{Command, ethernet}
use claas_rollant.Ports.{Inputs, NetworkController, BusController}
use claas_rollant.Control.Spec as Spec
use claas_rollant.Control.Spec.{Machine, Levels}
use claas_rollant.Rig.Locked.Sends.{is_open, AllOpen}

module _ (net : NetworkController) (bus : BusController) where
  -- What nobody without the PIN can do to the machine of the specification.
  pub record Kept (m n : Machine net bus) : Type 0 where
    pub mode_kept : n.mode ≢ ethernet
    pub network_kept : n.network ≡ m.network
    pub master_kept : n.master ≡ m.master
    pub total_kept : m.total ≤ n.total

  observe-Kept :
      (l : Levels) (m : Machine net bus)
      → m.mode ≢ ethernet
      → m.total ≤ 2 ^ 64 - 1
      → Kept m (Spec.observe net bus l m)
  unfolding Spec.observe
  observe-Kept l m h f = ground arith

  receive-Kept :
      (cmd : Command) (m n : Machine net bus)
      → is_open cmd ≡ true
      → Kept m n
      → Kept m (Spec.receive net bus cmd n)
  unfolding Spec.receive
  receive-Kept cmd m n o k = ground arith

  receive_all-Kept :
      (cmds : List Command) (m n : Machine net bus)
      → AllOpen cmds
      → Kept m n
      → Kept m (Spec.receive_all net bus cmds n)
  unfolding Spec.receive_all
  receive_all-Kept [] m n o k = k
  receive_all-Kept (cmd ∷ cmds) m n o k =
      receive_all-Kept cmds m (Spec.receive net bus cmd n) o.1 (receive-Kept cmd m n o.0 k)

  conclude-Kept :
      (h b : Bool) (m n : Machine net bus) → Kept m n → Kept m (Spec.conclude net bus h b n).0
  unfolding Spec.conclude
  conclude-Kept h b m n k = ground arith

  pub cycle-Kept :
      (l : Levels) (i : Inputs) (cmds : List Command) (m : Machine net bus)
      → m.mode ≢ ethernet
      → m.total ≤ 2 ^ 64 - 1
      → AllOpen cmds
      → Kept m (Spec.cycle net bus l i cmds m).0
  unfolding Spec.cycle
  cycle-Kept l i cmds m h f o =
      conclude-Kept l.healthy (Spec.has_manual net bus cmds) m _
        (receive_all-Kept cmds m (Spec.observe net bus l m) o (observe-Kept l m h f))
