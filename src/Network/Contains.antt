-- ===== src/Network/Contains.antt =====
-- What the test for a missing default route looks for, in the text that `ip` printed:
-- `is_missing_route` of src/baler-daemon/src/network_mode.rs.
use claas_rollant.Prelude.{
  ◌≡◌, refl, ap, true, [], ◌∷◌, ◌++◌, ◌⊎◌, inl, inr, Option, ℤ, arith, Bool-cases,
}
use claas_rollant.Prelude.Text.{Text, codes, eq_text}
use claas_rollant.Ports.{command_failed}
use claas_rollant.Network.{Processes, to_ascii_lowercase, starts_with, contains, is_missing_route}

-- A text stands somewhere in another one.
abbrev pub Occurs : Text → Text → Type 0
Occurs p s = (before : Text) × (after : Text) × (s ≡ before ++ (p ++ after))

-- `ip` says that there is no such route, in whatever case.
abbrev pub IsNoRoute : Text → Type 0
IsNoRoute stderr =
    Occurs (codes "no such process") (to_ascii_lowercase stderr)
    ⊎ Occurs (codes "cannot find") (to_ascii_lowercase stderr)

starts_with-prefix : (p s : Text) → starts_with p s ≡ true → (after : Text) × (s ≡ p ++ after)
unfolding eq_text
starts_with-prefix [] s h = (s, refl)
starts_with-prefix (c ∷ p) [] h = absurd (ground (arith, h))
starts_with-prefix (c ∷ p) (d ∷ s) h =
    let (after, e) = starts_with-prefix p s (ground (arith, h)) in (after, ground (arith, h, e))

prefix-starts_with : (p after : Text) → starts_with p (p ++ after) ≡ true
unfolding eq_text
prefix-starts_with [] after = refl
prefix-starts_with (c ∷ p) after = ground (arith, prefix-starts_with p after)

contains_here : (p s : Text) → starts_with p s ≡ true → contains p s ≡ true
contains_here p [] h = h
contains_here p (c ∷ s) h = ground (arith, h)

pub contains-Occurs : (p s : Text) → contains p s ≡ true → Occurs p s
contains-Occurs p [] h = let (after, e) = starts_with-prefix p [] h in ([], after, e)
contains-Occurs p (c ∷ s) h = elim (Bool-cases (starts_with p (c ∷ s))) [
  | inl here ↦ let (after, e) = starts_with-prefix p (c ∷ s) here in ([], after, e)
  | inr no_prefix ↦
      let (before, after, e) = contains-Occurs p s (ground (arith, h, no_prefix)) in
      (c ∷ before, after, ap (λ (t : Text). c ∷ t) e)
]

pub Occurs-contains : (p before after : Text) → contains p (before ++ (p ++ after)) ≡ true
Occurs-contains p [] after = contains_here p (p ++ after) (prefix-starts_with p after)
Occurs-contains p (c ∷ before) after = ground (arith, Occurs-contains p before after)

module _ (ps : Processes) where
  -- The test for a missing route, by what stands in the text, both ways.
  pub missing-IsNoRoute :
      (argv stderr : Text) (code : Option ℤ)
      → is_missing_route ps (command_failed argv code stderr) ≡ true
      → IsNoRoute stderr
  unfolding is_missing_route
  missing-IsNoRoute argv stderr code h =
      let s = to_ascii_lowercase stderr in
      elim (Bool-cases (contains (codes "no such process") s)) [
        | inl first ↦ inl (contains-Occurs (codes "no such process") s first)
        | inr other ↦ inr (contains-Occurs (codes "cannot find") s (ground (arith, h, other)))
      ]

  pub IsNoRoute-missing :
      (argv stderr : Text) (code : Option ℤ)
      → IsNoRoute stderr
      → is_missing_route ps (command_failed argv code stderr) ≡ true
  unfolding is_missing_route
  IsNoRoute-missing argv stderr code (inl (before, after, e)) =
      rw e (ground (arith, Occurs-contains (codes "no such process") before after))
  IsNoRoute-missing argv stderr code (inr (before, after, e)) =
      rw e (ground (arith, Occurs-contains (codes "cannot find") before after))
