-- ===== src/Rig/Locked/Sends.antt =====
-- What a frame of the panel sends without the PIN.
use claas_rollant.Prelude.{
  subst, ◌≡◌, Bool, true, false, List, [], ◌∷◌, ◌++◌, All, none, some, arith, inl, inr, Bool-cases,
  Option-cases,
}
use claas_rollant.Ipc.{Mode, Command, reset_total, enter_ethernet}
use claas_rollant.Ui.Nav.{ButtonEvent, next_nav}
use claas_rollant.Ui.Panel.{Panel, Effect, send, save_lang, frame, on_event, on_events, stream}
use claas_rollant.Ui.Gate.{any_of-append, any_of, is_guarded, IsRight, event_gate}
use claas_rollant.Rig.{sent, deliver}

-- Neither a reset of the total nor the switch to Ethernet.
abbrev pub is_open : Command → Bool
is_open reset_total = false
is_open enter_ethernet = false
is_open _ = true

abbrev pub AllOpen : List Command → Type 0
AllOpen = All (λ cmd. is_open cmd ≡ true)

pub AllOpen-append : (xs ys : List Command) → AllOpen xs → AllOpen ys → AllOpen (xs ++ ys)
AllOpen-append [] ys p q = q
AllOpen-append (x ∷ xs) ys p q = (p.0, AllOpen-append xs ys p.1 q)

pub AllOpen-deliver :
    (luck : List Bool) (cmds : List Command) → AllOpen cmds → AllOpen (deliver luck cmds)
AllOpen-deliver [] [] p = tt
AllOpen-deliver (true ∷ luck) [] p = tt
AllOpen-deliver (false ∷ luck) [] p = tt
AllOpen-deliver [] (cmd ∷ cmds) p = p
AllOpen-deliver (true ∷ luck) (cmd ∷ cmds) p = (p.0, AllOpen-deliver luck cmds p.1)
AllOpen-deliver (false ∷ luck) (cmd ∷ cmds) p = AllOpen-deliver luck cmds p.1

-- Effects that are not guarded send open commands.
pub AllOpen-sent : (es : List Effect) → any_of is_guarded es ≡ false → AllOpen (sent es)
AllOpen-sent [] h = tt
AllOpen-sent (save_lang l ∷ es) h = AllOpen-sent es (ground (arith, h))
AllOpen-sent (send cmd ∷ es) h = (ground (arith, h), AllOpen-sent es (ground (arith, h)))

-- Every event of a frame finds another PIN entered than 1, 2, 3, 4.
abbrev pub IsLocked : List ButtonEvent → Panel → Type 0
IsLocked [] p = Unit
IsLocked (ev ∷ evs) p =
    (IsRight p.menu.pin → ⊥)
    × (elim (on_event ev p) as (λ _. Type 0) [ none ↦ Unit {0} | some r ↦ IsLocked evs r.0 ])

event_open :
    (ev : ButtonEvent) (p q : Panel) (es : List Effect)
    → (IsRight p.menu.pin → ⊥)
    → on_event ev p ≡ some (q, es)
    → any_of is_guarded es ≡ false
event_open ev p q es l e = elim (Bool-cases (any_of is_guarded es)) [
  | inl g ↦ absurd (l (event_gate ev p q es e (inl g)).1)
  | inr g ↦ g
]

events_open :
    (evs : List ButtonEvent) (p q : Panel) (es : List Effect)
    → IsLocked evs p
    → on_events evs p ≡ some (q, es)
    → any_of is_guarded es ≡ false
unfolding on_events
events_open [] p q es l e = ground arith
events_open (ev ∷ evs) p q es l e = elim (Option-cases (on_event ev p)) [
  | inl n ↦ ground (arith, n)
  | inr (r, h) ↦
      let rest : IsLocked evs r.0 =
        subst (λ o. elim o as (λ _. Type 0) [ none ↦ Unit {0} | some r ↦ IsLocked evs r.0 ]) h
          l.1 in
      elim (Option-cases (on_events evs r.0)) [
        | inl n ↦ ground (arith, n, h)
        | inr (t, k) ↦
            let first = event_open ev p r.0 r.1 l.0 h in
            let others = events_open evs r.0 t.0 t.1 rest k in
            let joined : es ≡ r.1 ++ t.1 = ground (arith, h, k, e) in
            rw joined (grind (arith, any_of-append is_guarded r.1 t.1, first, others))
      ]
]

-- A frame that finds the panel locked sends open commands only.
pub frame_open :
    (m : Mode) (evs : List ButtonEvent) (p q : Panel) (es : List Effect)
    → IsLocked evs (record p { nav = next_nav p.nav m })
    → frame m evs p ≡ some (q, es)
    → AllOpen (sent es)
unfolding frame
frame_open m evs p q es l e =
    elim (Option-cases (on_events evs (record p { nav = next_nav p.nav m }))) [
      | inl n ↦ ground (arith, n)
      | inr (t, k) ↦
          let others = events_open evs (record p { nav = next_nav p.nav m }) t.0 t.1 l k in
          let joined : es ≡ t.1 ++ stream t.0 = ground (arith, k, e) in
          AllOpen-sent es
            (rw joined (grind (arith, any_of-append is_guarded t.1 (stream t.0), others)))
    ]
