-- ===== src/Rig/Locked.antt =====
-- Without the PIN nobody resets the total or stops the bus, whatever keys are pressed.
pub mod Sends
pub mod Cycles
use claas_rollant.Prelude.{
  sym, subst, ◌-◌, ◌≤◌, ◌≡◌, refl, ap, ◌∙◌, ◌≢◌, Bool, List, [], ◌∷◌, ◌++◌, none, some, arith, inl,
  inr, Option-cases,
}
use claas_rollant.Ipc.{Mode, Command, ethernet}
use claas_rollant.Counter.Files.{FileSystem}
use claas_rollant.Ports.{Inputs, NetworkController, BusController}
use claas_rollant.Control.{Control, World, step}
use claas_rollant.Control.Invariant.{IsValid, step-IsValid}
use claas_rollant.Control.Spec as Spec
use claas_rollant.Control.Refine.{machine, levels}
use claas_rollant.Control.Refine.Runs.{step_refines}
use claas_rollant.Ui.Nav.{ButtonEvent, next_nav}
use claas_rollant.Ui.Panel.{frame}
use claas_rollant.Rig.{Rig, Move, draw, scan_cycle, move, moves, sent, deliver}
use claas_rollant.Rig.Locked.Sends.{AllOpen, AllOpen-append, AllOpen-deliver, IsLocked, frame_open}
use claas_rollant.Rig.Locked.Cycles.{Kept, cycle-Kept}

module _ (fs : FileSystem) (net : NetworkController) (bus : BusController) where
  -- What is so of a rig as long as nobody enters the PIN, against the rig at the start.
  pub record IsGuarded (r s : Rig fs net bus) : Type 0 where
    pub valid : IsValid fs s.control
    pub open_queue : AllOpen s.queue
    pub in_control : s.control.state.mode ≢ ethernet
    pub same_network : s.world.network ≡ r.world.network
    pub same_master : s.world.master ≡ r.world.master
    pub no_less : r.control.counters.counters.total ≤ s.control.counters.counters.total

  step-Kept :
      (w : World fs net bus) (c : Control fs) (i : Inputs) (cmds : List Command)
      → IsValid fs c
      → AllOpen cmds
      → c.state.mode ≢ ethernet
      → let (w', c', out, snap) = step fs net bus w c i cmds in
        Kept net bus (machine fs net bus w c) (machine fs net bus w' c')
  step-Kept w c i cmds v o m =
      let (w', c', out, snap) = step fs net bus w c i cmds in
      let M = machine fs net bus w c in
      let e = step_refines fs net bus w c i cmds v in
      subst (Kept net bus M) (sym (ap (λ t. t.0) e)) (
        cycle-Kept net bus (levels fs net bus c i) i cmds M (unfold machine in m)
          (unfold machine in v.counters_fit.total_fits) o)

  scan-IsGuarded :
      (i : Inputs) (r s : Rig fs net bus)
      → IsGuarded r s
      → let (w, c, out, snap) = step fs net bus s.world s.control i s.queue in
        IsGuarded r (record s { queue = []; world = w; control = c })
  unfolding machine
  scan-IsGuarded i r s g =
      let k = step-Kept s.world s.control i s.queue g.valid g.open_queue g.in_control in
      record {
        valid = step-IsValid fs net bus s.world s.control i s.queue g.valid;
        open_queue = tt;
        in_control = k.mode_kept;
        same_network = k.network_kept ∙ g.same_network;
        same_master = k.master_kept ∙ g.same_master;
        no_less = omega (arith, k.total_kept, g.no_less);
      }

  draw-IsGuarded :
      (m : Mode) (evs : List ButtonEvent) (luck : List Bool) (r s t : Rig fs net bus)
      → IsLocked evs (record (s.panel) { nav = next_nav s.panel.nav m })
      → IsGuarded r s
      → move fs net bus (draw m evs luck) s ≡ some t
      → IsGuarded r t
  unfolding move
  draw-IsGuarded m evs luck r s t l g e = elim (Option-cases (frame m evs s.panel)) [
    | inl n ↦ ground (arith, n)
    | inr (q, h) ↦
        let sends = AllOpen-deliver luck (sent q.1) (frame_open m evs s.panel q.0 q.1 l h) in
        let joined = AllOpen-append s.queue (deliver luck (sent q.1)) g.open_queue sends in
        let after : t ≡ record s { panel = q.0; queue = s.queue ++ deliver luck (sent q.1) } =
          ground (arith, h, e) in
        rw after (record {
          valid = g.valid;
          open_queue = joined;
          in_control = g.in_control;
          same_network = g.same_network;
          same_master = g.same_master;
          no_less = g.no_less;
        })
  ]

  -- In every frame of the moves every key finds another PIN entered than 1, 2, 3, 4.
  abbrev pub AreLocked : List Move → Rig fs net bus → Type 0
  AreLocked [] r = Unit
  AreLocked (draw m evs luck ∷ mvs) r =
      IsLocked evs (record (r.panel) { nav = next_nav r.panel.nav m })
      × (elim (move fs net bus (draw m evs luck) r) as (λ _. Type 0) [
        | none ↦ Unit {0}
        | some s ↦ AreLocked mvs s
      ])
  AreLocked (scan_cycle i ∷ mvs) r = elim (move fs net bus (scan_cycle i) r) as (λ _. Type 0) [
    | none ↦ Unit {0}
    | some s ↦ AreLocked mvs s
  ]

  moves-IsGuarded :
      (mvs : List Move) (r s t : Rig fs net bus)
      → AreLocked mvs s
      → IsGuarded r s
      → moves fs net bus mvs s ≡ some t
      → IsGuarded r t
  unfolding moves
  moves-IsGuarded [] r s t l g e = subst (IsGuarded r) (ground (arith, e)) g
  moves-IsGuarded (draw m evs luck ∷ mvs) r s t l g e =
      elim (Option-cases (move fs net bus (draw m evs luck) s)) [
        | inl n ↦ ground (arith, n)
        | inr (u, h) ↦
            let rest : AreLocked mvs u =
              subst (λ o. elim o as (λ _. Type 0) [ none ↦ Unit {0} | some x ↦ AreLocked mvs x ]) h
                l.1 in
            moves-IsGuarded mvs r u t rest (draw-IsGuarded m evs luck r s u l.0 g h)
              (ground (arith, h, e))
      ]
  moves-IsGuarded (scan_cycle i ∷ mvs) r s t l g e =
      let (w, c, out, snap) = step fs net bus s.world s.control i s.queue in
      let u : Rig fs net bus = record s { queue = []; world = w; control = c } in
      moves-IsGuarded mvs r u t (unfold move in l) (scan-IsGuarded i r s g) (unfold move in e)

  -- From a rig with a valid control state out of Ethernet mode, whose queue holds no reset of the total
  -- and no switch to Ethernet: after any moves of panel and daemon, with any delays and losses on the
  -- link, in which every key finds another PIN entered than 1, 2, 3, 4, the mode is not Ethernet, the network and
  -- the bus master are untouched, and the total is not less.
  pub locked_moves :
      (mvs : List Move) (r t : Rig fs net bus)
      → IsValid fs r.control
      → AllOpen r.queue
      → r.control.state.mode ≢ ethernet
      → AreLocked mvs r
      → moves fs net bus mvs r ≡ some t
      → (t.control.state.mode ≢ ethernet)
        × (t.world.network ≡ r.world.network)
        × (t.world.master ≡ r.world.master)
        × (r.control.counters.counters.total ≤ t.control.counters.counters.total)
  locked_moves mvs r t v o m l e =
      let g =
        moves-IsGuarded mvs r r t l
          (record {
            valid = v;
            open_queue = o;
            in_control = m;
            same_network = refl;
            same_master = refl;
            no_less = omega arith;
          })
          e in
      (g.in_control, g.same_network, g.same_master, g.no_less)
