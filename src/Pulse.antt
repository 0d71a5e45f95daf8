-- ===== src/Pulse.antt =====
-- The output pulse generator: src/baler-core/src/pulse.rs. Durations are in nanoseconds.
pub mod Timing
use claas_rollant.Prelude.{
  ℕ, zero, suc, Bool, true, false, leb, not, if◌then◌else◌, sat_add_duration, List, [], ◌∷◌,
}

pub data PulseEvent : Type 0 where
  no_event completed aborted : PulseEvent

pub record PulseEngine : Type 0 where
  pub duration : ℕ
  pub elapsed : ℕ
  pub active : Bool

unfoldable pub new : ℕ → PulseEngine
new duration = record { duration = duration; elapsed = 0; active = false }

abbrev pub reset : PulseEngine → PulseEngine
reset p = record p { active = false; elapsed = 0 }

unfoldable pub trigger : PulseEngine → PulseEngine × Bool
trigger p = if p.active then (p, false) else (record p { active = true; elapsed = 0 }, true)

-- The end of `tick`, with the time that has elapsed.
abbrev pub progress : PulseEngine → PulseEngine × PulseEvent
progress p = if leb p.duration p.elapsed then (reset p, completed) else (p, no_event)

unfoldable pub tick : PulseEngine → ℕ → Bool → PulseEngine × PulseEvent
tick p dt bus_healthy =
    if not p.active
    then (p, no_event)
    else if not bus_healthy
    then (reset p, aborted)
    else progress (record p { elapsed = sat_add_duration p.elapsed dt })

abbrev pub output : PulseEngine → Bool
output p = p.active

-- `n` ticks of `dt` on a healthy bus.
unfoldable pub ticks : ℕ → ℕ → PulseEngine → PulseEngine
ticks zero dt p = p
ticks (suc n) dt p = (tick (ticks n dt p) dt true).0
