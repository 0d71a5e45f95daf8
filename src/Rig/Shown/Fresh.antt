-- ===== src/Rig/Shown/Fresh.antt =====
-- The panel is never behind the link once it has drawn.
use claas_rollant.Prelude.{
  ℕ, suc, ◌≡◌, refl, sym, ap, ◌∙◌, subst, Bool, true, false, List, [], ◌∷◌, ◌++◌, Option, some,
  arith, length,
}
use claas_rollant.Ipc.{StateSnapshot}
use claas_rollant.Counter.Files.{FileSystem}
use claas_rollant.Ports.{Inputs, NetworkController, BusController}
use claas_rollant.Control.{Control, World, step}
use claas_rollant.Transport.{drain_latest}
use claas_rollant.Transport.Recovery.{newest}
use claas_rollant.Ui.Nav.{ButtonEvent}
use claas_rollant.Ui.Gate as Gate
use claas_rollant.Ui.Panel.{Panel}
use claas_rollant.Ui.Loop.Current.{IsTrue, IsCurrent, round-IsCurrent}
use claas_rollant.Rig.{sent, deliver}
use claas_rollant.Rig.Shown.{
  channel, Site, scanned, shown, rounded, drawn, Happens, scans, draws, Becomes, begins, goes,
  opening,
}

-- The snapshots of a list, oldest first, on top of others, newest first.
abbrev pub onto : List StateSnapshot → List StateSnapshot → List StateSnapshot
onto [] older = older
onto (snap ∷ snaps) older = onto snaps (snap ∷ older)

onto-append :
    (xs : List StateSnapshot) (x : StateSnapshot) (older : List StateSnapshot)
    → onto (xs ++ x ∷ []) older ≡ x ∷ onto xs older
onto-append [] x older = refl
onto-append (y ∷ ys) x older = onto-append ys x (y ∷ older)

pub drain-channel :
    (ms : List StateSnapshot) (last : StateSnapshot)
    → drain_latest channel (suc (length ms)) ms last ≡ some ([], newest channel last ms)
unfolding drain_latest
drain-channel [] last = refl
drain-channel (m ∷ ms) last = drain-channel ms m

-- Draining leaves the newest on top.
pub onto-newest :
    (ms : List StateSnapshot) (last : StateSnapshot) (older : List StateSnapshot)
    → (older' : List StateSnapshot) × (onto ms (last ∷ older) ≡ newest channel last ms ∷ older')
onto-newest [] last older = (older, refl)
onto-newest (m ∷ ms) last older = onto-newest ms m (last ∷ older)

module _ (fs : FileSystem) (net : NetworkController) (bus : BusController) where
  abbrev S : Type 0
  S = Site fs net bus

  -- What is on the link is all that was published since the snapshot that the panel saw last.
  pub record IsKept (s : S) : Type 0 where
    pub faithful : IsTrue s.display
    pub older : List StateSnapshot
    pub in_order : s.published ≡ onto s.states (s.last ∷ older)

  scanned-IsKept :
      (i : Inputs) (heard : Bool) (s : S) → IsKept s → IsKept (scanned fs net bus i heard s)
  scanned-IsKept i false s k = record {
    faithful = k.faithful;
    older = k.older;
    in_order = k.in_order;
  }
  scanned-IsKept i true s k =
      let snap = (step fs net bus s.world s.control i s.queue).3 in
      record {
        faithful = k.faithful;
        older = k.older;
        in_order =
            ap (λ xs. snap ∷ xs) k.in_order ∙ sym (onto-append s.states snap (s.last ∷ k.older));
      }

  -- A site right after a round at the time `t`: the panel has seen all that was published, and shows the
  -- newest of it.
  pub record IsFresh (t : ℕ) (s : S) : Type 0 where
    pub rest : List StateSnapshot
    pub newest_seen : s.published ≡ s.last ∷ rest
    pub current : IsCurrent t s.last s.display

  drawn-IsFresh :
      (t : ℕ) (evs : List ButtonEvent) (luck : List Bool) (s : S)
      → IsKept s
      → (s' : S) × (drawn fs net bus t evs luck s ≡ some s')
        × IsKept s'
        × IsFresh t s'
        × (s'.published ≡ s.published)
  drawn-IsFresh t evs luck s k =
      let snap = newest channel s.last s.states in
      let (d, es, run, current) = round-IsCurrent t snap evs s.display k.faithful in
      let (older, top) = onto-newest s.states s.last k.older in
      let seen = k.in_order ∙ top in
      (
        record s {
          display = d;
          last = snap;
          states = [];
          queue = s.queue ++ deliver luck (sent es);
        },
        ap (rounded fs net bus t evs luck s) (drain-channel s.states s.last)
            ∙ ap (shown fs net bus luck s ([], snap)) run,
        record { faithful = current.faithful; older = older; in_order = seen },
        record { rest = older; newest_seen = seen; current = current },
        refl,
      )

  some_same : {A : Type 0} → (o : Option A) (a b : A) → o ≡ some a → o ≡ some b → a ≡ b
  some_same o a b e f = ground (arith, sym e ∙ f)

  Happens-IsKept : {s s' : S} → Happens fs net bus s s' → IsKept s → IsKept s'
  Happens-IsKept (scans s i heard) k = scanned-IsKept i heard s k
  Happens-IsKept (draws s s' t evs luck e) k =
      let (s1, run, kept, fresh, same) = drawn-IsFresh t evs luck s k in
      subst IsKept (some_same (drawn fs net bus t evs luck s) s1 s' run e) kept

  pub Becomes-IsKept : {s0 s : S} → Becomes fs net bus s0 s → IsKept s0 → IsKept s
  Becomes-IsKept begins k = k
  Becomes-IsKept (goes b h) k = Happens-IsKept h (Becomes-IsKept b k)

  pub opening-IsKept :
      (p : Panel) (w : World fs net bus) (c : Control fs)
      → Gate.IsValid p.menu
      → IsKept (opening fs net bus p w c)
  opening-IsKept p w c v = record {
    faithful = record { menu_valid = v; window_known = tt };
    older = [];
    in_order = refl;
  }

  pub round-IsFresh :
      (p : Panel) (w : World fs net bus) (c : Control fs) (s : S) (t : ℕ) (evs : List ButtonEvent)
      (luck : List Bool)
      → Gate.IsValid p.menu
      → Becomes fs net bus (opening fs net bus p w c) s
      → (s' : S) × (drawn fs net bus t evs luck s ≡ some s')
        × IsFresh t s'
        × (s'.published ≡ s.published)
  round-IsFresh p w c s t evs luck v b =
      let (s', run, kept, fresh, same) =
        drawn-IsFresh t evs luck s (Becomes-IsKept b (opening-IsKept p w c v)) in
      (s', run, fresh, same)
