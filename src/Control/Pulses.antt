-- ===== src/Control/Pulses.antt =====
-- When the pulses start, and how long the wrap output stays high.
use claas_rollant.Prelude.{
  ℕ, zero, suc, ◌<◌, ◌≡◌, refl, ap, ◌∙◌, ◌≢◌, Bool, true, false, List, [], ◌∷◌, All, arith, ltb,
  if◌then◌else◌, length,
}
use claas_rollant.Ipc.{Command, manual_io, wrap, ethernet}
use claas_rollant.State
use claas_rollant.Counter.Files.{FileSystem}
use claas_rollant.Counter.Store
use claas_rollant.Pulse
use claas_rollant.Pulse.{PulseEngine, ticks}
use claas_rollant.Pulse.Timing as Timing
use claas_rollant.Ports.{Inputs, NetworkController, BusController}
use claas_rollant.Control.{
  Control, World, Cycle, sense, latch, arm, drive, count_bale, operate, on_command, on_commands,
  begin, step, perform, fire_directional, scan,
}
use claas_rollant.Control.Commands.{on_commands_keep}
use claas_rollant.Control.Invariant.{IsValid}
use claas_rollant.Control.History.{History, System, run}
use claas_rollant.Control.Latch.{IsNoWrap, NoWrap}
use claas_rollant.Control.Manual.{NoManual, step_watchdog}
use claas_rollant.Control.Freeze.{begin-Frozen}

module _ (fs : FileSystem) (net : NetworkController) (bus : BusController) where
  abbrev HasWrap : PulseEngine → Cycle fs net bus → Type 0
  HasWrap p y = y.control.wrap ≡ p

  operate_wrap :
      (p : PulseEngine) (cmd : Command) (y : Cycle fs net bus)
      → IsNoWrap cmd
      → HasWrap p y
      → HasWrap p (operate fs net bus cmd y)
  unfolding operate perform State.handle Store.reset_session Store.adjust_session Store.reset_total
      fire_directional
  operate_wrap p wrap y q e = cc
  operate_wrap p cmd y q e = ground arith

  on_command_wrap :
      (p : PulseEngine) (cmd : Command) (y : Cycle fs net bus)
      → IsNoWrap cmd
      → HasWrap p y
      → HasWrap p (on_command fs net bus cmd y)
  unfolding on_command
  on_command_wrap p (manual_io w i o) y q e = e
  on_command_wrap p cmd y q e = ground (arith, operate_wrap p cmd y)

  drive_wrap :
      (i : Inputs) (b : Bool) (c : Control fs)
      → (drive fs i (arm fs b c)).0.wrap ≡ (
          if ltb 0 (drive fs i (arm fs b c)).0.manual_io_remaining
          then c.wrap
          else (Pulse.tick c.wrap scan i.healthy).0)
  unfolding drive arm
  drive_wrap i b c = ground arith

  -- In a cycle with no wrap command the wrap pulse is only advanced, or left alone in manual-IO mode.
  pub step_wrap :
      (w : World fs net bus) (c : Control fs) (i : Inputs) (cmds : List Command)
      → All IsNoWrap cmds
      → let c' = (step fs net bus w c i cmds).1 in
        c'.wrap
        ≡ (if ltb 0 c'.manual_io_remaining then c.wrap else (Pulse.tick c.wrap scan i.healthy).0)
  unfolding step
  step_wrap w c i cmds q =
      let y = begin fs net bus w c i in
      let z = on_commands fs net bus cmds y in
      let same =
        on_commands_keep fs net bus (HasWrap c.wrap) IsNoWrap (on_command_wrap c.wrap) cmds y q
          (begin-Frozen fs net bus w c i).wrap_same in
      drive_wrap i z.got_manual z.control
      ∙ ap
          (λ (p : PulseEngine).
            if ltb 0 (drive fs i (arm fs z.got_manual z.control)).0.manual_io_remaining
            then p
            else (Pulse.tick p scan i.healthy).0)
          same

  -- No wrap pulse starts without a wrap command: over any history without one the pulse is in flight
  -- only if it was before.
  pub no_auto_wrap :
      (s : System fs net bus) (h : History)
      → NoWrap h
      → (run fs net bus s h).control.wrap.active ≡ true
      → s.control.wrap.active ≡ true
  unfolding run
  no_auto_wrap s [] q a = a
  no_auto_wrap s ((i, cmds) ∷ h) q a =
      let t = run fs net bus s h in
      no_auto_wrap s h q.1 (
        ground (
          arith,
          step_wrap t.world t.control i cmds q.0,
          Timing.active-tick t.control.wrap scan i.healthy,
        ))

  abbrev pub AllHealthy : History → Type 0
  AllHealthy = All (λ cycle. cycle.0.healthy ≡ true)

  run_wrap :
      (s : System fs net bus) (h : History)
      → NoWrap h
      → NoManual h
      → AllHealthy h
      → s.control.manual_io_remaining ≡ 0
      → ((run fs net bus s h).control.wrap ≡ ticks (length h) scan s.control.wrap)
        × ((run fs net bus s h).control.manual_io_remaining ≡ 0)
  unfolding run ticks
  run_wrap s [] q m a z = (refl, z)
  run_wrap s ((i, cmds) ∷ h) q m a z =
      let t = run fs net bus s h in
      let (same, off) = run_wrap s h q.1 m.1 a.1 z in
      let d = step_watchdog fs net bus t.world t.control i cmds in
      let p = step_wrap t.world t.control i cmds q.0 in
      (ground (arith, same, off, d, p, m.0, a.0), ground (arith, off, d, m.0))

  -- A wrap command on a healthy bus, outside maintenance and manual-IO mode, starts an idle pulse,
  -- and the first tick follows in the same cycle.
  pub wrap_starts :
      (w : World fs net bus) (c : Control fs) (i : Inputs)
      → i.healthy ≡ true
      → c.state.mode ≢ ethernet
      → c.manual_io_remaining ≡ 0
      → let c' = (step fs net bus w c i (wrap ∷ [])).1 in
        (c'.wrap ≡ (Pulse.tick (Pulse.trigger c.wrap).0 scan true).0) × (c'.manual_io_remaining ≡ 0)
  unfolding step begin sense latch count_bale Store.increment_bale on_commands on_command operate
      perform State.handle State.on_bus_health State.on_inputs drive arm
  wrap_starts w c i h m r = ground arith

  ticks_front :
      (n : ℕ) (p : PulseEngine) → ticks n scan (Pulse.tick p scan true).0 ≡ ticks (suc n) scan p
  unfolding ticks
  ticks_front zero p = refl
  ticks_front (suc n) p = ap (λ q. (Pulse.tick q scan true).0) (ticks_front n p)

  pub wrap_pulse_active :
      (w : World fs net bus) (c : Control fs) (i : Inputs) (h : History)
      → IsValid fs c
      → i.healthy ≡ true
      → c.state.mode ≢ ethernet
      → c.manual_io_remaining ≡ 0
      → c.wrap.active ≡ false
      → NoWrap h
      → NoManual h
      → AllHealthy h
      → let (w', c', out, snap) = step fs net bus w c i (wrap ∷ []) in
        let d = (run fs net bus (record { world = w'; control = c' }) h).control in
        (length h < 499 → d.wrap.active ≡ true) × (length h ≡ 499 → d.wrap.active ≡ false)
  wrap_pulse_active w c i h v ok_bus here off idle q m a =
      let (w', c', out, snap) = step fs net bus w c i (wrap ∷ []) in
      let s : System fs net bus = record { world = w'; control = c' } in
      let (start, off') = wrap_starts w c i ok_bus here off in
      let (same, _) = run_wrap s h q m a off' in
      let whole : (run fs net bus s h).control.wrap
          ≡ ticks (suc (length h)) scan (Pulse.trigger c.wrap).0 =
        same ∙ ap (ticks (length h) scan) start ∙ ticks_front (length h) (Pulse.trigger c.wrap).0 in
      let fits = v.wrap_pulse.valid.representable in
      let long = v.wrap_pulse.length in
      (
        λ l. ground (
          arith,
          whole,
          Timing.pulse_high c.wrap (suc (length h)) scan idle fits (omega (arith, long)),
        ),
        λ l. ground (
          arith,
          whole,
          l,
          Timing.pulse_low c.wrap 499 scan idle fits (omega (arith, long)) (omega (arith, long)),
        ),
      )

  drive_out :
      (i : Inputs) (c : Control fs)
      → (drive fs i c).0.manual_io_remaining ≡ 0
      → (drive fs i c).1.wrap ≡ (drive fs i c).0.wrap.active
  unfolding drive
  drive_out i c m = ground arith

  -- Outside manual-IO mode the wrap output is high just while the pulse is in flight.
  pub out_wrap :
      (w : World fs net bus) (c : Control fs) (i : Inputs) (cmds : List Command)
      → let (w', c', out, snap) = step fs net bus w c i cmds in
        c'.manual_io_remaining ≡ 0 → out.wrap ≡ c'.wrap.active
  unfolding step
  out_wrap w c i cmds m =
      let z = on_commands fs net bus cmds (begin fs net bus w c i) in
      drive_out i (arm fs z.got_manual z.control) m

  -- From a valid state, a wrap command that comes alone at an idle pulse, on a healthy bus outside
  -- maintenance and manual-IO mode, makes the wrap output high in its own cycle. If after some cycles `h`
  -- another one runs, all of them on a healthy bus and none with a further wrap or a `ManualIo`, then that
  -- one has the output high if `h` is shorter than 498 cycles, and low if it is 498: the output is high
  -- for 499 cycles and low in the 500th.
  pub wrap_pulse_cycles :
      (w : World fs net bus) (c : Control fs) (i j : Inputs) (cmds : List Command) (h : History)
      → IsValid fs c
      → i.healthy ≡ true
      → c.state.mode ≢ ethernet
      → c.manual_io_remaining ≡ 0
      → c.wrap.active ≡ false
      → NoWrap ((j, cmds) ∷ h)
      → NoManual ((j, cmds) ∷ h)
      → AllHealthy ((j, cmds) ∷ h)
      → let (w', c', out, snap) = step fs net bus w c i (wrap ∷ []) in
        let t = run fs net bus (record { world = w'; control = c' }) h in
        let (w'', c'', later, snap') = step fs net bus t.world t.control j cmds in
        (out.wrap ≡ true)
        × (length h < 498 → later.wrap ≡ true)
        × (length h ≡ 498 → later.wrap ≡ false)
  unfolding run
  wrap_pulse_cycles w c i j cmds h v ok_bus here off idle q m a =
      let (w', c', out, snap) = step fs net bus w c i (wrap ∷ []) in
      let s : System fs net bus = record { world = w'; control = c' } in
      let t = run fs net bus s h in
      let (start, off') = wrap_starts w c i ok_bus here off in
      let still_off = (run_wrap s ((j, cmds) ∷ h) q m a off').1 in
      let first = wrap_pulse_active w c i [] v ok_bus here off idle tt tt tt in
      let whole = wrap_pulse_active w c i ((j, cmds) ∷ h) v ok_bus here off idle q m a in
      let high = out_wrap t.world t.control j cmds still_off in
      (
        out_wrap w c i (wrap ∷ []) off' ∙ first.0 (omega arith),
        λ l. high ∙ whole.0 (omega (arith, l)),
        λ l. high ∙ whole.1 (omega (arith, l)),
      )
