-- ===== src/Control/Refine.antt =====
-- The control cycle does what its specification says: the detailed state, with its pulse engines in
-- nanoseconds, is seen as the machine of Control/Spec, and every phase of `step` as one of the machine.
pub mod Phases
pub mod Views
pub mod Fed
pub mod Runs
use claas_rollant.Prelude.{
  ℕ, ◌+◌, ◌-◌, ◌/◌, ◌≤◌, ◌<◌, ◌≡◌, refl, Bool, true, false, ◌&&◌, ◌||◌, not, Option, none, some,
  arith, ltb, ◌==◌, if◌then◌else◌, is_some,
}
use claas_rollant.State.{BalerState}
use claas_rollant.Pulse
use claas_rollant.Pulse.{PulseEngine}
use claas_rollant.InputConditioner as Conditioner
use claas_rollant.Counter.Files.{FileSystem}
use claas_rollant.Ports.{Inputs, NetworkController, BusController}
use claas_rollant.Control.{Control, World, Cycle, scan}
use claas_rollant.Control.Invariant.{IsPulse}
use claas_rollant.Control.Spec.{Machine, Levels, Knife, inwards, outwards, start, spend}

-- The cycles that a pulse has left.
unfoldable pub left : PulseEngine → ℕ
left p = if p.active then (p.duration - p.elapsed + 9_999_999) / scan else 0

pub left-active : (p : PulseEngine) → IsPulse p → ltb 0 (left p) ≡ p.active
unfolding left
left-active p v = ground (arith, v.length, v.valid.unfinished)

pub left-trigger :
    (net : NetworkController) (bus : BusController) (p : PulseEngine)
    → IsPulse p
    → left (Pulse.trigger p).0 ≡ start net bus (left p)
unfolding left Pulse.trigger
left-trigger net bus p v = ground (arith, v.length, v.valid.unfinished)

pub left-tick :
    (net : NetworkController) (bus : BusController) (p : PulseEngine) (h : Bool)
    → IsPulse p
    → left (Pulse.tick p scan h).0 ≡ spend net bus h (left p)
unfolding left Pulse.tick
left-tick net bus p h v = ground (arith, v.length, v.valid.unfinished)

-- The status inputs, if they are known.
abbrev pub known : BalerState → Option (Bool × Bool)
known s = elim s.knife_in [ none ↦ none | some k ↦ some (s.bale_full, k) ]

-- The two knife pulses as one.
abbrev pub knife_of : PulseEngine → PulseEngine → Knife
knife_of p q =
    if p.active then some (inwards, left p) else if q.active then some (outwards, left q) else none

module _ (fs : FileSystem) (net : NetworkController) (bus : BusController) where
  unfoldable pub machine : World fs net bus → Control fs → Machine net bus
  machine w c = record {
    mode = c.state.mode;
    inputs = known c.state;
    wrap_left = left c.wrap;
    knife = knife_of c.knives_in c.knives_out;
    latch_left = c.full_latch_remaining;
    manual_left = c.manual_io_remaining;
    held = (c.manual_wrap, c.manual_knives_in, c.manual_knives_out);
    knife_level = c.knife_db.level;
    was_open = c.last_open_level;
    session = c.counters.counters.session;
    total = c.counters.counters.total;
    ip = c.last_ip;
    network = w.network;
    master = w.master;
  }

  -- The levels that a cycle conditions its inputs to.
  abbrev pub levels : Control fs → Inputs → Levels
  levels c i = record {
    healthy = i.healthy;
    full = (Conditioner.update c.full_db i.bale_full).0.level;
    knife = (Conditioner.update c.knife_db i.knife_in).0.level;
    opened = (Conditioner.update c.open_db i.bale_open).0.level;
  }
