-- ===== src/Watchdog/Armed.antt =====
-- Whether the timer runs over the life of a petter.
use claas_rollant.Prelude.{
  ℕ, zero, suc, ◌≡◌, sym, ap, ◌∙◌, Bool, true, false, [], ◌∷◌, Option, none, some, ok, is_ok, arith,
  Bool-cases, Result-cases, subst, inl, inr,
}
use claas_rollant.Watchdog.{Driver, WatchdogPetter, open_petter, pet, drop, pets, configured}

module _ (dr : Driver) where
  open dr use {Device}

  -- The timer runs, and would run on after a close.
  pub record IsArmed (d : Device) : Type 0 where
    pub running : dr.armed d ≡ true
    pub kept : dr.magic d ≡ false

  pub pet-IsArmed : (p : WatchdogPetter dr) (d : Device) → IsArmed d → IsArmed (pet dr p d)
  unfolding pet
  pet-IsArmed p d h =
      let (a, o, e) = dr.write_keeps p.dev (0 ∷ []) d in
      record {
        running = a ∙ h.running;
        kept = elim (Bool-cases (is_ok (dr.write_all p.dev (0 ∷ []) d).1)) [
          | inl y ↦ o y
          | inr n ↦ e n ∙ h.kept
        ];
      }

  pets-IsArmed : (n : ℕ) (p : WatchdogPetter dr) (d : Device) → IsArmed d → IsArmed (pets dr n p d)
  pets-IsArmed zero p d h = h
  pets-IsArmed (suc n) p d h = pets-IsArmed n p (pet dr p d) (pet-IsArmed p d h)

  pub IsArmed-intro : (d : Device) → (dr.armed d ≡ true) × (dr.magic d ≡ false) → IsArmed d
  IsArmed-intro d (a, b) = record { running = a; kept = b }

  pub configured-IsArmed :
      (secs : Option ℕ) (m : Bool) (f : dr.File) (d d' : Device) (p : WatchdogPetter dr)
      → IsArmed d
      → configured dr secs m (d, ok f) ≡ (d', ok p)
      → IsArmed d' × (p.magic_close ≡ m)
  configured-IsArmed none m f d d' p h e = (subst IsArmed (ap (λ r. r.0) e) h, ground (arith, e))
  configured-IsArmed (some secs) m f d d' p h e = elim (Result-cases (dr.settimeout f secs d).1) [
    | inr (x, q) ↦ ground (arith, q, e)
    | inl (g, q) ↦
        let same : (dr.settimeout f secs d).0 ≡ d' = ground (arith, q, e) in
        let (a, b) = dr.settimeout_keeps f secs d in
        (
          subst IsArmed same (record { running = a ∙ h.running; kept = b ∙ h.kept }),
          ground (arith, q, e),
        )
  ]

  pub open-IsArmed :
      (secs : Option ℕ) (m : Bool) (d d' : Device) (p : WatchdogPetter dr)
      → open_petter dr secs m d ≡ (d', ok p)
      → IsArmed d' × (p.magic_close ≡ m)
  unfolding open_petter
  open-IsArmed secs m d d' p e = elim (Result-cases (dr.open_write d).1) [
    | inr (x, q) ↦ ground (arith, q, e)
    | inl (f, q) ↦
        configured-IsArmed secs m f (dr.open_write d).0 d' p
          (IsArmed-intro (dr.open_write d).0 (dr.open_arms d (ap is_ok q)))
          (ap (λ r. configured dr secs m ((dr.open_write d).0, r)) (sym q) ∙ e)
  ]

  pub drop_disarms :
      (p : WatchdogPetter dr) (d : Device)
      → IsArmed d
      → (p.magic_close ≡ false → dr.armed (drop dr p d) ≡ true)
        × (p.magic_close ≡ true
            → is_ok (dr.write_all p.dev (b'V' ∷ []) d).1 ≡ true
            → dr.armed (drop dr p d) ≡ false)
  unfolding drop
  drop_disarms p d h =
      let marked = (dr.write_all p.dev (b'V' ∷ []) d).0 in
      ground (
        arith,
        h,
        dr.close_disarms p.dev d,
        dr.close_disarms p.dev marked,
        dr.write_keeps p.dev (b'V' ∷ []) d,
      )

  -- A petter that opens has armed the timer, and any number of keepalives, failed ones included, leave
  -- it running. Dropping the petter leaves it running too, without the magic close, which the daemon
  -- does without; with the magic close, if its byte can be written, the drop stops the timer.
  pub petter_armed :
      (secs : Option ℕ) (m : Bool) (d d' : Device) (p : WatchdogPetter dr) (n : ℕ)
      → open_petter dr secs m d ≡ (d', ok p)
      → let last = pets dr n p d' in
        (dr.armed last ≡ true)
        × (m ≡ false → dr.armed (drop dr p last) ≡ true)
        × (m ≡ true
            → is_ok (dr.write_all p.dev (b'V' ∷ []) last).1 ≡ true
            → dr.armed (drop dr p last) ≡ false)
  petter_armed secs m d d' p n e =
      let (a, q) = open-IsArmed secs m d d' p e in
      let h = pets-IsArmed n p d' a in
      let (stay, stop) = drop_disarms p (pets dr n p d') h in
      (h.running, λ f. stay (q ∙ f), λ t. stop (q ∙ t))
