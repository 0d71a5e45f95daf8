-- ===== src/Control/Manual.antt =====
-- Manual-IO mode: its watchdog and what it drives.
use claas_rollant.Prelude.{
  ℕ, ap, ◌-◌, ◌≤◌, ◌≡◌, refl, ◌∙◌, Bool, false, not, ◌&&◌, List, [], ◌∷◌, All, arith, ltb,
  if◌then◌else◌, length,
}
use claas_rollant.Ipc.{Command, manual_io, wrap}
use claas_rollant.State
use claas_rollant.Counter.Files.{FileSystem}
use claas_rollant.Counter.Store
use claas_rollant.Ports.{Inputs, Outputs, NetworkController, BusController}
use claas_rollant.Control.{
  Control, World, Cycle, sense, latch, arm, drive, count_bale, operate, on_command, on_commands,
  begin, step, manual_io_watchdog, manual_outputs, pulse_outputs, perform, fire_directional,
}
use claas_rollant.Control.Commands.{has_manual, on_commands-Untouched, on_commands_got}
use claas_rollant.Control.Invariant.{IsValid}
use claas_rollant.Control.History.{History, System, run}

-- None of the cycles has a `ManualIo`.
abbrev pub NoManual : History → Type 0
NoManual = All (λ cycle. has_manual cycle.1 ≡ false)

module _ (fs : FileSystem) (net : NetworkController) (bus : BusController) where
  pub begin_manual :
      (w : World fs net bus) (c : Control fs) (i : Inputs)
      → ((begin fs net bus w c i).control.manual_io_remaining ≡ c.manual_io_remaining)
        × ((begin fs net bus w c i).got_manual ≡ false)
  unfolding begin sense latch count_bale Store.increment_bale
  begin_manual w c i = ground arith

  -- The manual-IO counter after a cycle.
  abbrev pub next_remaining : Bool → ℕ → ℕ
  next_remaining got n = if got then manual_io_watchdog else n - 1

  manual_drive :
      (i : Inputs) (b : Bool) (c : Control fs)
      → (drive fs i (arm fs b c)).0.manual_io_remaining ≡ next_remaining b c.manual_io_remaining
  unfolding drive arm
  manual_drive i b c = ground arith

  -- A `ManualIo` among the commands sets the manual-IO counter to 30; without one it counts down and
  -- stops at 0.
  pub step_watchdog :
      (w : World fs net bus) (c : Control fs) (i : Inputs) (cmds : List Command)
      → (step fs net bus w c i cmds).1.manual_io_remaining
        ≡ next_remaining (has_manual cmds) c.manual_io_remaining
  unfolding step
  step_watchdog w c i cmds =
      let y = begin fs net bus w c i in
      let z = on_commands fs net bus cmds y in
      ground (
        arith,
        manual_drive i z.got_manual z.control,
        begin_manual w c i,
        on_commands_got fs net bus cmds y,
        (on_commands-Untouched fs net bus cmds y).manual_same,
      )

  run_watchdog :
      (s : System fs net bus) (h : History)
      → NoManual h
      → (run fs net bus s h).control.manual_io_remaining ≡ s.control.manual_io_remaining - length h
  unfolding run
  run_watchdog s [] q = omega arith
  run_watchdog s ((i, cmds) ∷ h) q =
      let t = run fs net bus s h in
      ground (arith, step_watchdog t.world t.control i cmds, run_watchdog s h q.1)

  -- From any valid state, 30 cycles without a `ManualIo` end manual-IO mode.
  pub manual_expires :
      (s : System fs net bus) (h : History)
      → IsValid fs s.control
      → manual_io_watchdog ≤ length h
      → NoManual h
      → (run fs net bus s h).control.manual_io_remaining ≡ 0
  manual_expires s h v l q = omega (arith, run_watchdog s h q, v.manual_bound)

  drive_outputs :
      (i : Inputs) (c : Control fs)
      → (drive fs i c).1 ≡ (
          if ltb 0 (drive fs i c).0.manual_io_remaining
          then manual_outputs fs i (drive fs i c).0
          else pulse_outputs fs (drive fs i c).0)
  unfolding drive
  drive_outputs i c = ground arith

  -- The operator-held bits after some commands: those of the last `ManualIo`.
  pub held : List Command → Bool × Bool × Bool → Bool × Bool × Bool
  held [] b = b
  held (manual_io w i o ∷ cmds) b = held cmds (w, i, o)
  held (cmd ∷ cmds) b = held cmds b

  abbrev pub bits : Control fs → Bool × Bool × Bool
  bits c = (c.manual_wrap, c.manual_knives_in, c.manual_knives_out)

  pub bits-begin :
      (w : World fs net bus) (c : Control fs) (i : Inputs)
      → bits (begin fs net bus w c i).control ≡ bits c
  unfolding begin sense latch count_bale Store.increment_bale
  bits-begin w c i = ground arith

  bits-operate :
      (cmd : Command) (y : Cycle fs net bus)
      → bits (operate fs net bus cmd y).control ≡ bits y.control
  unfolding operate perform State.handle Store.reset_session Store.adjust_session Store.reset_total
      fire_directional
  bits-operate wrap y = ground arith
  bits-operate cmd y = ground arith

  bits-on_commands :
      (cmds : List Command) (y : Cycle fs net bus)
      → bits (on_commands fs net bus cmds y).control ≡ held cmds (bits y.control)
  unfolding on_commands on_command held
  bits-on_commands [] y = refl
  bits-on_commands (manual_io w i o ∷ cmds) y =
      bits-on_commands cmds (on_command fs net bus (manual_io w i o) y)
  bits-on_commands (cmd ∷ cmds) y =
      bits-on_commands cmds (on_command fs net bus cmd y)
      ∙ ap (held cmds) (ground (arith, bits-operate cmd y))

  bits-drive : (i : Inputs) (b : Bool) (c : Control fs) → bits (drive fs i (arm fs b c)).0 ≡ bits c
  unfolding drive arm
  bits-drive i b c = ground arith

  bits-step :
      (w : World fs net bus) (c : Control fs) (i : Inputs) (cmds : List Command)
      → bits (step fs net bus w c i cmds).1 ≡ held cmds (bits c)
  unfolding step
  bits-step w c i cmds =
      let y = begin fs net bus w c i in
      let z = on_commands fs net bus cmds y in
      bits-drive i z.got_manual z.control
      ∙ bits-on_commands cmds y
      ∙ ap (held cmds) (bits-begin w c i)

  -- The outputs in manual-IO mode: the held bits while the bus is healthy, knives-in first.
  abbrev pub held_outputs : Bool → Bool × Bool × Bool → Outputs
  held_outputs healthy (w, i, o) = record {
    wrap = healthy && w;
    knives_in = healthy && i;
    knives_out = (healthy && o) && not (healthy && i);
  }

  -- Outputs as a function of the counter, the held bits and the pulses.
  abbrev chosen : Bool → Outputs → ℕ → Bool × Bool × Bool → Outputs
  chosen healthy pulses remaining b = if ltb 0 remaining then held_outputs healthy b else pulses

  step-chosen :
      (w : World fs net bus) (c : Control fs) (i : Inputs) (cmds : List Command)
      → let (w', c', out, snap) = step fs net bus w c i cmds in
        out ≡ chosen i.healthy (pulse_outputs fs c') c'.manual_io_remaining (bits c')
  unfolding step
  step-chosen w c i cmds =
      let y = on_commands fs net bus cmds (begin fs net bus w c i) in
      drive_outputs i (arm fs y.got_manual y.control)

  -- While manual-IO mode lasts the outputs are the bits of the last `ManualIo`, interlocked, and only
  -- on a healthy bus; once it is over they are the three pulses.
  pub step_outputs :
      (w : World fs net bus) (c : Control fs) (i : Inputs) (cmds : List Command)
      → let (w', c', out, snap) = step fs net bus w c i cmds in
        out ≡ (
          if ltb 0 (next_remaining (has_manual cmds) c.manual_io_remaining)
          then held_outputs i.healthy (held cmds (bits c))
          else pulse_outputs fs c')
  step_outputs w c i cmds =
      let c' = (step fs net bus w c i cmds).1 in
      let pulses = pulse_outputs fs c' in
      step-chosen w c i cmds
      ∙ ap (λ n. chosen i.healthy pulses n (bits c')) (step_watchdog w c i cmds)
      ∙ ap (chosen i.healthy pulses (next_remaining (has_manual cmds) c.manual_io_remaining))
          (bits-step w c i cmds)
