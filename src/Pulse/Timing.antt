-- ===== src/Pulse/Timing.antt =====
-- How long a pulse lasts, and what ends it.
use claas_rollant.Prelude.{
  ℕ, zero, suc, ◌∙◌, ◌+◌, ◌*◌, ◌≤◌, ◌<◌, ◌≡◌, refl, ◌≢◌, ◌↔◌, Bool, true, false, arith,
  max_duration,
}
use claas_rollant.Pulse.{
  PulseEngine, no_event, completed, aborted, new, trigger, tick, ticks, output,
}

pub record IsValid (p : PulseEngine) : Type 0 where
  pub representable : p.duration ≤ max_duration
  pub idle_reset : p.active ≡ false → p.elapsed ≡ 0
  pub unfinished : p.active ≡ true → 0 < p.duration → p.elapsed < p.duration

pub new-IsValid : (d : ℕ) → d ≤ max_duration → IsValid (new d)
unfolding new
new-IsValid d h = ground arith

pub trigger-IsValid : (p : PulseEngine) → IsValid p → IsValid (trigger p).0
unfolding trigger
trigger-IsValid p v = ground arith

pub tick-IsValid : (p : PulseEngine) (dt : ℕ) (h : Bool) → IsValid p → IsValid (tick p dt h).0
unfolding tick
tick-IsValid p dt h v = ground arith

pub duration-trigger : (p : PulseEngine) → (trigger p).0.duration ≡ p.duration
unfolding trigger
duration-trigger p = ground arith

pub duration-tick : (p : PulseEngine) (dt : ℕ) (h : Bool) → (tick p dt h).0.duration ≡ p.duration
unfolding tick
duration-tick p dt h = ground arith

pub active-trigger : (p : PulseEngine) → (trigger p).0.active ≡ true
unfolding trigger
active-trigger p = ground arith

-- A tick starts no pulse.
pub active-tick :
    (p : PulseEngine) (dt : ℕ) (h : Bool) → (tick p dt h).0.active ≡ true → p.active ≡ true
unfolding tick
active-tick p dt h = ground arith

-- A pulse in flight cannot be triggered again: the call says so and changes nothing. An idle engine
-- starts from zero.
pub trigger_lockout :
    (p : PulseEngine)
    → ((p.active ≡ true) → trigger p ≡ (p, false))
      × ((p.active ≡ false)
          → ((trigger p).1 ≡ true) × ((trigger p).0.active ≡ true) × ((trigger p).0.elapsed ≡ 0))
unfolding trigger
trigger_lockout p = ground arith

-- A tick reports completion exactly when the pulse was active on a healthy bus and its time is up,
-- and an abort exactly when it was active on an unhealthy one; after either the output is low.
pub tick-event_iff :
    (p : PulseEngine) (dt : ℕ) (h : Bool)
    → p.duration ≤ max_duration
    → (((tick p dt h).1 ≡ completed)
        ↔ ((p.active ≡ true) × (h ≡ true) × (p.duration ≤ p.elapsed + dt)))
      × (((tick p dt h).1 ≡ aborted) ↔ ((p.active ≡ true) × (h ≡ false)))
      × ((tick p dt h).1 ≢ no_event
          → (output (tick p dt h).0 ≡ false) × ((tick p dt h).0.elapsed ≡ 0))
unfolding tick
tick-event_iff p dt h r = ground arith

-- Whatever its state, a pulse is low after a cycle with an unhealthy bus.
pub tick_unhealthy : (p : PulseEngine) (dt : ℕ) → (tick p dt false).0.active ≡ false
unfolding tick
tick_unhealthy p dt = ground arith

tick_progress :
    (p : PulseEngine) (dt : ℕ)
    → p.active ≡ true
    → p.elapsed + dt < p.duration
    → p.duration ≤ max_duration
    → ((tick p dt true).0.active ≡ true)
      × ((tick p dt true).0.elapsed ≡ p.elapsed + dt)
      × ((tick p dt true).0.duration ≡ p.duration)
unfolding tick
tick_progress p dt a h r = ground arith

ticks_running :
    (p : PulseEngine) (n dt : ℕ)
    → p.active ≡ true
    → p.elapsed ≡ 0
    → n * dt < p.duration
    → p.duration ≤ max_duration
    → ((ticks n dt p).active ≡ true)
      × ((ticks n dt p).elapsed ≡ n * dt)
      × ((ticks n dt p).duration ≡ p.duration)
unfolding ticks
ticks_running p zero dt a e h r = ground arith
ticks_running p (suc n) dt a e h r =
    let ih = ticks_running p n dt a e (omega arith) r in
    let (a', e', d') =
      tick_progress (ticks n dt p) dt ih.0 (omega (arith, ih.1, ih.2)) (omega (arith, ih.2)) in
    (a', e' ∙ omega (arith, ih.1), d' ∙ ih.2)

-- A pulse whose duration fits in a `Duration`, triggered on an idle engine, is high through every
-- healthy tick that its duration has not yet passed, and the first tick that reaches the duration
-- completes it and takes the output low.
pub pulse_lasts :
    (p : PulseEngine) (n dt : ℕ)
    → p.active ≡ false
    → p.duration ≤ max_duration
    → n * dt < p.duration
    → p.duration ≤ suc n * dt
    → let q = ticks n dt (trigger p).0 in
      (output q ≡ true) × ((tick q dt true).1 ≡ completed) × (output (tick q dt true).0 ≡ false)
unfolding trigger
pulse_lasts p n dt a r h k =
    let started = trigger_lockout p in
    let (_, a', e') = started.1 a in
    let q = ticks n dt (trigger p).0 in
    let d : (trigger p).0.duration ≡ p.duration = ground arith in
    let (on, past, same_duration) =
      ticks_running (trigger p).0 n dt a' e' (omega (arith, d)) (omega (arith, d)) in
    let ended = tick-event_iff q dt true (omega (arith, d, same_duration)) in
    let done = ended.0.1 (on, refl, omega (arith, d, same_duration, past)) in
    (on, done, (ended.2 (λ e. cc e)).0)

-- The output of a triggered pulse after any number of healthy ticks below its duration, and after the
-- first that reaches it.
pub pulse_high :
    (p : PulseEngine) (n dt : ℕ)
    → p.active ≡ false
    → p.duration ≤ max_duration
    → n * dt < p.duration
    → (ticks n dt (trigger p).0).active ≡ true
unfolding trigger
pulse_high p n dt a r h =
    let (_, a', e') = (trigger_lockout p).1 a in
    let d = duration-trigger p in
    (ticks_running (trigger p).0 n dt a' e' (omega (arith, d)) (omega (arith, d))).0

pub pulse_low :
    (p : PulseEngine) (n dt : ℕ)
    → p.active ≡ false
    → p.duration ≤ max_duration
    → n * dt < p.duration
    → p.duration ≤ suc n * dt
    → (ticks (suc n) dt (trigger p).0).active ≡ false
unfolding ticks
pulse_low p n dt a r h k = (pulse_lasts p n dt a r h k).2

pub tick_first :
    (p : PulseEngine) (dt : ℕ)
    → p.active ≡ false
    → p.duration ≤ max_duration
    → dt < p.duration
    → (tick (trigger p).0 dt true).0.active ≡ true
unfolding ticks
tick_first p dt a r h = pulse_high p 1 dt a r (omega arith)

pub tick_idle :
    (p : PulseEngine) (dt : ℕ) (h : Bool) → p.active ≡ false → (tick p dt h).0.active ≡ false
unfolding tick
tick_idle p dt h a = ground arith
