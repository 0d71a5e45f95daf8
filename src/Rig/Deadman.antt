-- ===== src/Rig/Deadman.antt =====
-- The dead man's switch of the IO test page, across the link.
use claas_rollant.Prelude.{
  ℕ, suc, ◌-◌, ◌≤◌, ◌≡◌, refl, ◌∙◌, subst, ◌≢◌, Bool, true, false, ◌||◌, List, [], ◌∷◌, ◌++◌, none,
  some, arith,
}
use claas_rollant.Ipc.{Mode, Command}
use claas_rollant.Counter.Files.{FileSystem}
use claas_rollant.Ports.{Inputs, NetworkController, BusController}
use claas_rollant.Control.{step, manual_io_watchdog}
use claas_rollant.Control.Commands.{has_manual}
use claas_rollant.Control.Invariant.{IsValid}
use claas_rollant.Control.Manual.{step_watchdog, next_remaining}
use claas_rollant.Ui.Nav.{ButtonEvent, io_test}
use claas_rollant.Ui.Panel.{Effect, send, save_lang}
use claas_rollant.Ui.Gate as Gate
use claas_rollant.Ui.Gate.{any_of, is_stream, frame_total}
use claas_rollant.Rig.{Rig, Move, draw, scan_cycle, move, moves, sent, deliver}

manual-append : (xs ys : List Command) → has_manual (xs ++ ys) ≡ (has_manual xs || has_manual ys)
manual-append [] ys = refl
manual-append (x ∷ xs) ys = grind (arith, manual-append xs ys)

manual-deliver :
    (luck : List Bool) (cmds : List Command)
    → has_manual cmds ≡ false
    → has_manual (deliver luck cmds) ≡ false
manual-deliver [] [] h = refl
manual-deliver (true ∷ luck) [] h = refl
manual-deliver (false ∷ luck) [] h = refl
manual-deliver [] (cmd ∷ cmds) h = h
manual-deliver (true ∷ luck) (cmd ∷ cmds) h = ground (arith, manual-deliver luck cmds)
manual-deliver (false ∷ luck) (cmd ∷ cmds) h = ground (arith, manual-deliver luck cmds)

manual-sent : (es : List Effect) → has_manual (sent es) ≡ any_of is_stream es
manual-sent [] = refl
manual-sent (save_lang l ∷ es) = manual-sent es
manual-sent (send cmd ∷ es) = grind (arith, manual-sent es)

-- The cycles among some moves.
unfoldable pub cycles : List Move → ℕ
cycles [] = 0
cycles (draw m evs luck ∷ mvs) = cycles mvs
cycles (scan_cycle i ∷ mvs) = suc (cycles mvs)

module _ (fs : FileSystem) (net : NetworkController) (bus : BusController) where
  abbrev StaysAway : Move → Rig fs net bus → Type 0
  StaysAway (draw m evs luck) s = s.panel.nav ≢ io_test
  StaysAway (scan_cycle i) s = Unit

  -- No frame of the moves ends on the IO test page.
  abbrev pub IsAway : List Move → Rig fs net bus → Type 0
  IsAway [] r = Unit
  IsAway (mv ∷ mvs) r = elim (move fs net bus mv r) as (λ _. Type 0) [
    | none ↦ Unit {0}
    | some s ↦ StaysAway mv s × IsAway mvs s
  ]

  -- At most `n` more cycles of manual-IO mode, those of the commands in the queue included.
  pub record IsFading (n : ℕ) (r : Rig fs net bus) : Type 0 where
    pub menu_valid : Gate.IsValid r.panel.menu
    pub counted : r.control.manual_io_remaining ≤ n
    pub queued :
        next_remaining fs net bus (has_manual r.queue) r.control.manual_io_remaining ≤ n - 1

  draw-IsFading :
      (n : ℕ) (m : Mode) (evs : List ButtonEvent) (luck : List Bool) (r : Rig fs net bus)
      → IsFading n r
      → (s : Rig fs net bus) × (move fs net bus (draw m evs luck) r ≡ some s)
        × (s.panel.nav ≢ io_test → IsFading n s)
  unfolding move
  draw-IsFading n m evs luck r g =
      let (q, es, run, valid, streams) = frame_total m evs r.panel g.menu_valid in
      (
        record r { panel = q; queue = r.queue ++ deliver luck (sent es) },
        rw run refl,
        λ away.
            let none_streamed : any_of is_stream es ≡ false = grind (arith, streams, away) in
            let none_sent = manual-deliver luck (sent es) (manual-sent es ∙ none_streamed) in
            let same : has_manual (r.queue ++ deliver luck (sent es)) ≡ has_manual r.queue =
              grind (arith, manual-append r.queue (deliver luck (sent es)), none_sent) in
            record { menu_valid = valid; counted = g.counted; queued = rw same g.queued },
      )

  scan-IsFading :
      (n : ℕ) (i : Inputs) (r : Rig fs net bus)
      → IsFading n r
      → let (w, c, out, snap) = step fs net bus r.world r.control i r.queue in
        IsFading (n - 1) (record r { queue = []; world = w; control = c })
  scan-IsFading n i r g =
      let e = step_watchdog fs net bus r.world r.control i r.queue in
      record {
        menu_valid = g.menu_valid;
        counted = omega (arith, e, g.queued);
        queued = omega (arith, e, g.queued);
      }

  moves_next :
      (mv : Move) (mvs : List Move) (r s : Rig fs net bus)
      → move fs net bus mv r ≡ some s
      → moves fs net bus (mv ∷ mvs) r ≡ moves fs net bus mvs s
  unfolding moves
  moves_next mv mvs r s e = rw (e, moves) refl

  moves-IsFading :
      (mvs : List Move) (n : ℕ) (r : Rig fs net bus)
      → IsFading n r
      → IsAway mvs r
      → (s : Rig fs net bus) × (moves fs net bus mvs r ≡ some s) × IsFading (n - cycles mvs) s
  unfolding moves cycles
  moves-IsFading [] n r g a = (r, refl, subst (λ k. IsFading k r) (omega arith) g)
  moves-IsFading (draw m evs luck ∷ mvs) n r g a =
      let (s, e, still) = draw-IsFading n m evs luck r g in
      let away : (s.panel.nav ≢ io_test) × IsAway mvs s =
        subst
          (λ o. elim o as (λ _. Type 0) [
            | none ↦ Unit {0}
            | some x ↦ (x.panel.nav ≢ io_test) × IsAway mvs x
          ])
          e a in
      let (t, f, done) = moves-IsFading mvs n s (still away.0) away.1 in
      (t, moves_next (draw m evs luck) mvs r s e ∙ f, done)
  moves-IsFading (scan_cycle i ∷ mvs) n r g a =
      let (w, c, out, snap) = step fs net bus r.world r.control i r.queue in
      let s : Rig fs net bus = record r { queue = []; world = w; control = c } in
      let (t, f, done) =
        moves-IsFading mvs (n - 1) s (scan-IsFading n i r g) (unfold move in a.1) in
      (
        t,
        moves_next (scan_cycle i) mvs r s (unfold move in refl) ∙ f,
        subst (λ k. IsFading k t) (omega arith) done,
      )

  -- From a rig with a valid control state and PIN entry, on any page and with any commands queued:
  -- whatever the operator does, in any interleaving and with any losses on the link, the panel does not
  -- panic, and if no frame ends on the IO test page, 31 cycles of the daemon end manual-IO mode.
  pub away_moves :
      (mvs : List Move) (r : Rig fs net bus)
      → IsValid fs r.control
      → Gate.IsValid r.panel.menu
      → IsAway mvs r
      → suc manual_io_watchdog ≤ cycles mvs
      → (s : Rig fs net bus) × (moves fs net bus mvs r ≡ some s)
        × (s.control.manual_io_remaining ≡ 0)
  away_moves mvs r v p a l =
      let bound = v.manual_bound in
      let (s, e, g) =
        moves-IsFading mvs 31 r
          (record {
            menu_valid = p;
            counted = omega (arith, bound);
            queued = ground (arith, bound);
          })
          a in
      (s, e, omega (arith, g.counted, l))
