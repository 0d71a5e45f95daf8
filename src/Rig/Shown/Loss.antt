-- ===== src/Rig/Shown/Loss.antt =====
-- A lost bus is seen by the operator.
use claas_rollant.Prelude.{ℕ, ◌≡◌, ◌≢◌, sym, ap, ◌∙◌, Bool, true, false, List, ◌∷◌, some, arith}
use claas_rollant.Ipc.{StateSnapshot, operational}
use claas_rollant.Counter.Files.{FileSystem}
use claas_rollant.Ports.{Inputs, NetworkController, BusController}
use claas_rollant.Control.{Control, World, step}
use claas_rollant.Control.Safety.{step_unhealthy}
use claas_rollant.Ui.Nav.{ButtonEvent}
use claas_rollant.Ui.Gate as Gate
use claas_rollant.Ui.Panel.{Panel}
use claas_rollant.Ui.View.{push_view}
use claas_rollant.Rig.Shown.{Site, scanned, drawn, scans, Becomes, goes, opening}
use claas_rollant.Rig.Shown.Fresh.{round-IsFresh}

unhealthy_view :
    (p : Panel) (snap : StateSnapshot)
    → snap.mode ≢ operational
    → (push_view p snap).ethercat_healthy ≡ false
unfolding push_view
unhealthy_view p snap h = ground arith

pub head_same : (a b : StateSnapshot) (xs ys : List StateSnapshot) → a ∷ xs ≡ b ∷ ys → a ≡ b
head_same a b xs ys e = ground (arith, e)

module _ (fs : FileSystem) (net : NetworkController) (bus : BusController) where
  -- From the start of both processes, in any interleaving and with any losses on the link: if the daemon
  -- then meets an unhealthy bus, the cycle drives no output, and if its snapshot gets onto the link, the
  -- panel's next round, with any keys, shows that snapshot, and the bus not as healthy.
  pub loss_seen :
      (p : Panel) (w : World fs net bus) (c : Control fs) (s : Site fs net bus) (i : Inputs) (t : ℕ)
      (evs : List ButtonEvent) (luck : List Bool)
      → Gate.IsValid p.menu
      → Becomes fs net bus (opening fs net bus p w c) s
      → i.healthy ≡ false
      → let (w', c', out, snap) = step fs net bus s.world s.control i s.queue in
        (s' : Site fs net bus) × (drawn fs net bus t evs luck (scanned fs net bus i true s)
          ≡ some s')
        × (out.wrap ≡ false)
        × (out.knives_in ≡ false)
        × (out.knives_out ≡ false)
        × (s'.last ≡ snap)
        × (s'.display.window ≡ push_view s'.display.panel snap)
        × (s'.display.window.ethercat_healthy ≡ false)
  loss_seen p w c s i t evs luck v b h =
      let (s', run, fresh, same) =
        round-IsFresh fs net bus p w c (scanned fs net bus i true s) t evs luck v
          (goes b (scans s i true)) in
      let (a, k, o, m) = step_unhealthy fs net bus s.world s.control i s.queue h in
      let snap = (step fs net bus s.world s.control i s.queue).3 in
      let last : s'.last ≡ snap =
        head_same s'.last snap fresh.rest s.published (sym (fresh.newest_seen) ∙ same) in
      let window : s'.display.window ≡ push_view s'.display.panel snap =
        fresh.current.window_current ∙ ap (push_view s'.display.panel) last in
      (
        s',
        run,
        a,
        k,
        o,
        last,
        window,
        ap (λ x. x.ethercat_healthy) window ∙ unhealthy_view _ snap m,
      )
