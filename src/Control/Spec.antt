-- ===== src/Control/Spec.antt =====
-- What the control cycle promises, counted in cycles: the specification of
-- src/baler-daemon/src/control.rs. A pulse is the number of cycles that it has left, the two knife
-- pulses are one pulse with a direction, and the inputs are the conditioned levels.
use claas_rollant.Prelude.{
  ℕ, ◌-◌, Bool, true, false, ◌&&◌, ◌||◌, not, List, [], ◌∷◌, Option, none, some, ltb, ◌==◌,
  if◌then◌else◌, is_some, to_option, unwrap_or, sat_add_u64, sat_add_signed,
}
use claas_rollant.Ipc.{
  Mode, initializing, operational, fault, ethernet, Command, wrap, toggle_knife, reset_session,
  reset_total, enter_ethernet, return_to_ethercat, manual_io, adjust_session, KnifePos, unknown,
  in_pos, out_pos, Ipv4Addr, StateSnapshot,
}
use claas_rollant.Counter.Format.{Counters}
use claas_rollant.Ports.{Inputs, Outputs, NetworkController, BusController}

pub data Side : Type 0 where
  inwards outwards : Side

-- The conditioned inputs of a cycle.
pub record Levels : Type 0 where
  pub healthy : Bool
  pub full : Bool
  pub knife : Bool
  pub opened : Bool

-- The cycles of a pulse, of the full latch, and of manual-IO mode.
abbrev pub pulse_cycles : ℕ
pulse_cycles = 500

abbrev pub latch_cycles : ℕ
latch_cycles = 2000

abbrev pub manual_cycles : ℕ
manual_cycles = 30

abbrev pub Knife : Type 0
Knife = Option (Side × ℕ)

module _ (net : NetworkController) (bus : BusController) where
  pub record Machine : Type 0 where
    pub mode : Mode
    pub inputs : Option (Bool × Bool)
    pub wrap_left : ℕ
    pub knife : Knife
    pub latch_left : ℕ
    pub manual_left : ℕ
    pub held : Bool × Bool × Bool
    pub knife_level : Bool
    pub was_open : Bool
    pub session : ℕ
    pub total : ℕ
    pub ip : Option Ipv4Addr
    pub network : net.Net
    pub master : bus.Bus

  -- The start of the daemon, with the counters that were loaded.
  abbrev pub boot : Counters → net.Net → bus.Bus → Machine
  boot counts network master = record {
    mode = initializing;
    inputs = none;
    wrap_left = 0;
    knife = none;
    latch_left = 0;
    manual_left = 0;
    held = (false, false, false);
    knife_level = false;
    was_open = false;
    session = counts.session;
    total = counts.total;
    ip = none;
    network = network;
    master = master;
  }

  -- The mode that the bus health leads to.
  abbrev pub next_mode : Mode → Bool → Mode
  next_mode ethernet h = ethernet
  next_mode _ true = operational
  next_mode operational false = fault
  next_mode fault false = fault
  next_mode initializing false = initializing

  abbrev pub is_operational : Mode → Bool
  is_operational operational = true
  is_operational _ = false

  -- The start of a cycle: the mode, the inputs while operational, the latch and the bale count.
  unfoldable pub observe : Levels → Machine → Machine
  observe l m =
      let mode = next_mode m.mode l.healthy in
      let bale = l.healthy && (l.opened && not m.was_open) in
      record m {
        mode = mode;
        inputs = if is_operational mode then some (l.full, l.knife) else none;
        latch_left = if l.healthy && l.full then latch_cycles else m.latch_left - 1;
        knife_level = l.knife;
        was_open = l.opened;
        session = if bale then sat_add_u64 m.session 1 else m.session;
        total = if bale then sat_add_u64 m.total 1 else m.total;
      }

  -- A pulse in flight is not started again.
  abbrev pub start : ℕ → ℕ
  start left = if left == 0 then pulse_cycles else left

  abbrev pub side : Bool → Side
  side true = inwards
  side false = outwards

  abbrev pub start_knife : Bool → Knife → Knife
  start_knife level none = some (side level, pulse_cycles)
  start_knife level (some k) = some k

  abbrev pub busy : Machine → Bool
  busy m = ltb 0 m.wrap_left || is_some m.knife

  abbrev pub go_ethernet : Machine → Machine
  go_ethernet m =
      let (network, r) = net.enter_ethernet m.network in
      record m {
        mode = ethernet;
        inputs = none;
        network = network;
        master = bus.suspend m.master;
        ip = to_option r;
      }

  abbrev pub go_ethercat : Machine → Machine
  go_ethercat m = record m {
    mode = initializing;
    network = (net.enter_ethercat m.network).0;
    master = bus.restart m.master;
    ip = none;
  }

  -- What a command does outside manual-IO mode, by the mode.
  abbrev pub obey : Mode → Command → Machine → Machine
  obey operational wrap m = record m { wrap_left = start m.wrap_left; latch_left = 0 }
  obey operational toggle_knife m = record m { knife = start_knife m.knife_level m.knife }
  obey operational enter_ethernet m = if busy m then m else go_ethernet m
  obey initializing enter_ethernet m = go_ethernet m
  obey fault enter_ethernet m = go_ethernet m
  obey ethernet return_to_ethercat m = go_ethercat m
  obey _ reset_session m = record m { session = 0 }
  obey _ (adjust_session delta) m = record m { session = sat_add_signed m.session delta }
  obey _ reset_total m = record m { total = 0 }
  obey _ _ m = m

  -- A `ManualIo` is held; any other command is dropped in manual-IO mode.
  unfoldable pub receive : Command → Machine → Machine
  receive (manual_io w i o) m = record m { held = (w, i, o) }
  receive cmd m = if ltb 0 m.manual_left then m else obey m.mode cmd m

  unfoldable pub receive_all : List Command → Machine → Machine
  receive_all [] m = m
  receive_all (cmd ∷ cmds) m = receive_all cmds (receive cmd m)

  abbrev pub is_manual : Command → Bool
  is_manual (manual_io w i o) = true
  is_manual _ = false

  abbrev pub has_manual : List Command → Bool
  has_manual [] = false
  has_manual (cmd ∷ cmds) = is_manual cmd || has_manual cmds

  -- A cycle of a pulse: one less on a healthy bus, and none left on an unhealthy one.
  abbrev pub spend : Bool → ℕ → ℕ
  spend healthy left = if healthy then left - 1 else 0

  abbrev pub left_of : Side → ℕ → Knife
  left_of s left = if left == 0 then none else some (s, left)

  abbrev pub spend_knife : Bool → Knife → Knife
  spend_knife healthy none = none
  spend_knife healthy (some (s, left)) = left_of s (spend healthy left)

  abbrev pub is_inwards : Knife → Bool
  is_inwards (some (inwards, left)) = true
  is_inwards _ = false

  abbrev pub is_outwards : Knife → Bool
  is_outwards (some (outwards, left)) = true
  is_outwards _ = false

  abbrev pub held_outputs : Bool → Bool × Bool × Bool → Outputs
  held_outputs healthy (w, i, o) = record {
    wrap = healthy && w;
    knives_in = healthy && i;
    knives_out = (healthy && o) && not (healthy && i);
  }

  -- The end of a cycle: in manual-IO mode the pulses wait and the held bits are driven.
  unfoldable pub conclude : Bool → Bool → Machine → Machine × Outputs
  conclude healthy manual m =
      let left = if manual then manual_cycles else m.manual_left - 1 in
      let wrap_left = spend healthy m.wrap_left in
      let knife = spend_knife healthy m.knife in
      if ltb 0 left then (record m { manual_left = left }, held_outputs healthy m.held) else (
        record m { manual_left = left; wrap_left = wrap_left; knife = knife },
        record {
          wrap = ltb 0 wrap_left;
          knives_in = is_inwards knife;
          knives_out = is_outwards knife;
        },
      )

  abbrev pub shown_knife : Option (Bool × Bool) → KnifePos
  shown_knife none = unknown
  shown_knife (some (full, true)) = in_pos
  shown_knife (some (full, false)) = out_pos

  abbrev pub shown_full : Option (Bool × Bool) → Bool
  shown_full none = false
  shown_full (some (full, knife)) = full

  abbrev pub no_address : Ipv4Addr
  no_address = record { a = 0; b = 0; c = 0; d = 0 }

  -- What the panel is shown: the raw inputs are those of the cycle.
  unfoldable pub view : Inputs → Machine → StateSnapshot
  view raw m = record {
    mode = m.mode;
    bale_full = shown_full m.inputs;
    knife = shown_knife m.inputs;
    wrap_armed = shown_full m.inputs;
    full_latched = ltb 0 m.latch_left;
    wrap_active = ltb 0 m.wrap_left;
    knife_active = is_some m.knife;
    session = m.session;
    total = m.total;
    di1 = raw.bale_full;
    di2 = raw.knife_in;
    di3 = raw.bale_open;
    ip = unwrap_or m.ip no_address;
    ip_valid = is_some m.ip;
  }

  -- One cycle.
  unfoldable pub cycle :
      Levels → Inputs → List Command → Machine → Machine × Outputs × StateSnapshot
  cycle l raw cmds m =
      let (m', out) = conclude l.healthy (has_manual cmds) (receive_all cmds (observe l m)) in
      (m', out, view raw m')
