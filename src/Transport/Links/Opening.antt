-- ===== src/Transport/Links/Opening.antt =====
-- The openings of the link's two ends come to a result, and what counts as a corruption.
use claas_rollant.Prelude.{
  ◌≡◌, refl, ◌∙◌, ap, true, [], ◌∷◌, ◌++◌, some, Result, ok, err, Trial, arith, Bool-cases, inl,
  inr, ◌↔◌,
}
use claas_rollant.Prelude.Text.{Text, codes}
use claas_rollant.Bringup.Outcome.{retry_open_total}
use claas_rollant.Transport.{hooks, open_attempts, open_with_recovery, first_snapshot}
use claas_rollant.Transport.Links.{
  Iox, contains, is_prefix, is_corrupted, node, Ending, second_open, first_open, open_both,
  daemon_ports, daemon_prepared, new_daemon_link, PanelError, connector_failed, panel_ports,
  panel_prepared, new_ipc_backend,
}

module _ (iox : Iox) where
  open iox use {World, ConnectorError, Descriptor, Writer, Reader}

  -- An ending that there is.
  abbrev pub IsReached : {A E : Type 0} → Ending iox E A → Type 0
  IsReached {A} {E} o = (r : World × Result A E) × (o ≡ some r)

  second_open-IsReached :
      {A B : Type 0}
      → (a : A) (o : Ending iox ConnectorError B) → IsReached o
      → IsReached (second_open iox a o)
  second_open-IsReached a o ((w, ok b), e) = ((w, ok (a, b)), ap (second_open iox a) e)
  second_open-IsReached a o ((w, err x), e) = ((w, err x), ap (second_open iox a) e)

  first_open-IsReached :
      {A B : Type 0}
      → (o : Ending iox ConnectorError A) (q : Trial World ConnectorError B) → IsReached o
      → IsReached (first_open iox o q)
  first_open-IsReached o q ((w, ok a), e) =
      let (r, f) =
        second_open-IsReached a (open_with_recovery (node iox q) w)
          (unfold open_with_recovery in retry_open_total (hooks (node iox q)) open_attempts w) in
      (r, ap (λ x. first_open iox x q) e ∙ f)
  first_open-IsReached o q ((w, err x), e) = ((w, err x), ap (λ x. first_open iox x q) e)

  open_both-IsReached :
      {A B : Type 0}
      → (p : Trial World ConnectorError A) (q : Trial World ConnectorError B) (w : World)
      → IsReached (open_both iox p q w)
  unfolding open_both open_with_recovery
  open_both-IsReached p q w =
      first_open-IsReached (open_with_recovery (node iox p) w) q
        (retry_open_total (hooks (node iox p)) open_attempts w)

  daemon_ports-IsReached :
      (o : Ending iox ConnectorError (Writer × Reader))
      → IsReached o
      → IsReached (daemon_ports iox o)
  daemon_ports-IsReached o ((w, ok (tx, rx)), e) =
      ((w, ok (record { state_tx = tx; cmd_rx = rx })), ap (daemon_ports iox) e)
  daemon_ports-IsReached o ((w, err x), e) = ((w, err x), ap (daemon_ports iox) e)

  panel_ports-IsReached :
      (o : Ending iox ConnectorError (Reader × Writer))
      → IsReached o
      → IsReached (panel_ports iox o)
  panel_ports-IsReached o ((w, ok (rx, tx)), e) = (
    (w, ok (record { state_rx = rx; cmd_tx = tx; last = first_snapshot })),
    ap (panel_ports iox) e,
  )
  panel_ports-IsReached o ((w, err x), e) = ((w, err (connector_failed x)), ap (panel_ports iox) e)

  daemon_prepared-IsReached :
      (r : World × Result (Descriptor × Descriptor) ConnectorError)
      → IsReached (daemon_prepared iox r)
  daemon_prepared-IsReached (w, err e) = ((w, err e), refl)
  daemon_prepared-IsReached (w, ok (s, c)) =
      daemon_ports-IsReached _ (open_both-IsReached (iox.create_writer s) (iox.create_reader c) w)

  panel_prepared-IsReached :
      (r : World × Result (Descriptor × Descriptor) (PanelError iox))
      → IsReached (panel_prepared iox r)
  panel_prepared-IsReached (w, err e) = ((w, err e), refl)
  panel_prepared-IsReached (w, ok (s, c)) =
      panel_ports-IsReached _ (open_both-IsReached (iox.create_reader s) (iox.create_writer c) w)

  -- Whatever iceoryx2 answers, both ends of the link come to a result, a link or an error: the attempts
  -- at each of the two channels end.
  pub links_total :
      (w : World) → IsReached (new_daemon_link iox w) × IsReached (new_ipc_backend iox w)
  unfolding new_daemon_link new_ipc_backend
  links_total w = (daemon_prepared-IsReached _, panel_prepared-IsReached _)

is_prefix-append : (s t : Text) → is_prefix s (s ++ t) ≡ true
is_prefix-append [] t = refl
is_prefix-append (c ∷ s) t = ground (arith, is_prefix-append s t)

is_prefix_split : (s t : Text) → is_prefix s t ≡ true → (post : Text) × (t ≡ s ++ post)
is_prefix_split [] t h = (t, refl)
is_prefix_split (c ∷ s) [] h = ground (arith, h)
is_prefix_split (c ∷ s) (d ∷ t) h =
    let (post, e) = is_prefix_split s t (ground (arith, h)) in
    let same : c ≡ d = ground (arith, h) in (post, rw same (ap (λ u. d ∷ u) e))

contains_prefix : (t s : Text) → is_prefix s t ≡ true → contains t s ≡ true
unfolding contains
contains_prefix [] s h = h
contains_prefix (c ∷ t) s h = ground (arith, h)

contains-append : (pre s post : Text) → contains (pre ++ s ++ post) s ≡ true
unfolding contains
contains-append [] s post = contains_prefix (s ++ post) s (is_prefix-append s post)
contains-append (c ∷ pre) s post = ground (arith, contains-append pre s post)

contains_split :
    (t s : Text) → contains t s ≡ true → (pre : Text) × (post : Text) × (t ≡ pre ++ s ++ post)
unfolding contains
contains_split [] s h = let (post, e) = is_prefix_split s [] h in ([], post, e)
contains_split (c ∷ t) s h = elim (Bool-cases (is_prefix s (c ∷ t))) [
  | inl y ↦ let (post, e) = is_prefix_split s (c ∷ t) y in ([], post, e)
  | inr n ↦
      let (pre, post, e) = contains_split t s (ground (arith, h, n)) in
      (c ∷ pre, post, ap (λ u. c ∷ u) e)
]

-- An error counts as a corruption just when its printed form is some text, "Corrupted", and some text.
pub is_corrupted_iff :
    (iox : Iox) (e : iox.ConnectorError)
    → (is_corrupted iox e ≡ true)
      ↔ ((pre : Text) × (post : Text) × (iox.debug e ≡ pre ++ codes "Corrupted" ++ post))
unfolding is_corrupted
is_corrupted_iff iox e = (
  λ h. contains_split (iox.debug e) (codes "Corrupted") h,
  λ (pre, post, q).
      ap (λ t. contains t (codes "Corrupted")) q ∙ contains-append pre (codes "Corrupted") post,
)
