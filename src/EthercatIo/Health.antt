-- ===== src/EthercatIo/Health.antt =====
-- The health pump that `register` in src/baler-daemon/src/ethercat_io.rs adds to the executor, and what
-- the control item then sees.
use claas_rollant.Prelude.{
  ℕ, zero, suc, ◌<◌, ◌≡◌, ◌∙◌, ap, Bool, true, false, ◌&&◌, List, [], ◌∷◌, Option, none, some, ok,
  err, arith, length, is_some, ◌==◌,
}
use claas_rollant.Transport.{MessageReader}
use claas_rollant.Transport.Recovery.{Holds}
use claas_rollant.EthercatIo.{Channels, WagoBus, HealthKind, up, kind_to_u8, is_healthy}

module _ (events : MessageReader HealthKind) where
  -- `while let Ok(Some(event)) = health_sub.try_next()`, on fuel: the shared health after it.
  unfoldable pub pump : ℕ → events.Reader → ℕ → Option (events.Reader × ℕ)
  pump zero sub health = none
  pump (suc fuel) sub health =
      let (sub', r) = events.try_recv sub in
      elim r [
        | ok o ↦ elim o [
          | some kind ↦ pump fuel sub' (kind_to_u8 kind)
          | none ↦ some (sub', health)
        ]
        | err e ↦ some (sub', health)
      ]

  -- The kind of the last event, or the kind before.
  abbrev pub last_kind : HealthKind → List HealthKind → HealthKind
  last_kind k [] = k
  last_kind k (k' ∷ ks) = last_kind k' ks

  pump_end :
      (fuel : ℕ) (sub sub' : events.Reader) (h : ℕ)
      → events.try_recv sub ≡ (sub', ok none)
      → pump (suc fuel) sub h ≡ some (sub', h)
  unfolding pump
  pump_end fuel sub sub' h e = ground arith

  pump_more :
      (fuel : ℕ) (sub sub' : events.Reader) (k : HealthKind) (h : ℕ)
      → events.try_recv sub ≡ (sub', ok (some k))
      → pump (suc fuel) sub h ≡ pump fuel sub' (kind_to_u8 k)
  unfolding pump
  pump_more fuel sub sub' k h e = ground arith

  pump_last :
      (fuel : ℕ) (sub : events.Reader) (k : HealthKind) (ks : List HealthKind)
      → Holds events sub ks
      → length ks < fuel
      → (sub' : events.Reader) × (pump fuel sub (kind_to_u8 k)
          ≡ some (sub', kind_to_u8 (last_kind k ks)))
  pump_last zero sub k ks h l = absurd (omega (arith, l))
  pump_last (suc fuel) sub k [] (sub', e) l = (sub', pump_end fuel sub sub' (kind_to_u8 k) e)
  pump_last (suc fuel) sub k (k' ∷ ks) (sub', e, h) l =
      let (last, q) = pump_last fuel sub' k' ks h (omega (arith, l)) in
      (last, pump_more fuel sub sub' k' (kind_to_u8 k) e ∙ q)

  abbrev pub is_up : HealthKind → Bool
  is_up up = true
  is_up _ = false

  up_code : (k : HealthKind) → (kind_to_u8 k == kind_to_u8 up) ≡ is_up k
  unfolding kind_to_u8
  up_code k = ground arith

  -- From a shared health that stands for a kind: if the feed gives some events and then nothing, a pump
  -- with more fuel than events ends, and the bus then reads as healthy just when it is not suspended and
  -- the last event, or the kind before if there was none, is `Up`.
  pub pump_healthy :
      (ch : Channels) (fuel : ℕ) (sub : events.Reader) (k : HealthKind) (ks : List HealthKind)
      (b : WagoBus ch)
      → Holds events sub ks
      → length ks < fuel
      → (sub' : events.Reader) × (h : ℕ) × (pump fuel sub (kind_to_u8 k) ≡ some (sub', h))
        × (is_healthy ch (record b { health = h })
            ≡ (is_some b.connector && is_up (last_kind k ks)))
  unfolding is_healthy
  pump_healthy ch fuel sub k ks b h l =
      let (sub', e) = pump_last fuel sub k ks h l in
      (
        sub',
        kind_to_u8 (last_kind k ks),
        e,
        ap (λ c. is_some b.connector && c) (up_code (last_kind k ks)),
      )
