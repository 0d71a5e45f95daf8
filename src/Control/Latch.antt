-- ===== src/Control/Latch.antt =====
-- The bale-full attention latch.
use claas_rollant.Prelude.{
  ℕ, ◌+◌, ◌-◌, ◌≤◌, ◌<◌, ◌≡◌, refl, ◌∙◌, ◌≢◌, Bool, true, false, ◌&&◌, List, [], ◌∷◌, All, arith,
  if◌then◌else◌, length,
}
use claas_rollant.Ipc.{Command, manual_io, wrap, ethernet}
use claas_rollant.State
use claas_rollant.Counter.Files.{FileSystem}
use claas_rollant.Counter.Store
use claas_rollant.InputConditioner as Conditioner
use claas_rollant.Ports.{Inputs, NetworkController, BusController}
use claas_rollant.Control.{
  Control, World, Cycle, sense, latch, arm, drive, count_bale, operate, on_command, on_commands,
  begin, step, perform, fire_directional, full_latch_cycles, snapshot,
}
use claas_rollant.Control.Commands.{on_commands_keep}
use claas_rollant.Control.History.{History, System, run}

abbrev pub is_wrap : Command → Bool
is_wrap wrap = true
is_wrap _ = false

abbrev pub IsNoWrap : Command → Type 0
IsNoWrap cmd = is_wrap cmd ≡ false

abbrev pub NoWrap : History → Type 0
NoWrap = All (λ cycle. All IsNoWrap cycle.1)

module _ (fs : FileSystem) (net : NetworkController) (bus : BusController) where
  -- The latch counter after a cycle with no wrap: set by a full bale on a healthy bus, else counted down.
  abbrev pub next_latch : Bool → ℕ → ℕ
  next_latch full n = if full then full_latch_cycles else n - 1

  -- The debounced DI1 of the cycle, on a healthy bus.
  abbrev pub sees_full : Control fs → Inputs → Bool
  sees_full c i = i.healthy && (Conditioner.update c.full_db i.bale_full).0.level

  begin_latch :
      (w : World fs net bus) (c : Control fs) (i : Inputs)
      → (begin fs net bus w c i).control.full_latch_remaining
        ≡ next_latch (sees_full c i) c.full_latch_remaining
  unfolding begin sense latch count_bale Store.increment_bale
  begin_latch w c i = ground arith

  abbrev IsLatch : ℕ → Cycle fs net bus → Type 0
  IsLatch n y = y.control.full_latch_remaining ≡ n

  operate-IsLatch :
      (n : ℕ) (cmd : Command) (y : Cycle fs net bus)
      → IsNoWrap cmd
      → IsLatch n y
      → IsLatch n (operate fs net bus cmd y)
  unfolding operate perform State.handle Store.reset_session Store.adjust_session Store.reset_total
      fire_directional
  operate-IsLatch n wrap y q e = cc
  operate-IsLatch n cmd y q e = ground arith

  on_command-IsLatch :
      (n : ℕ) (cmd : Command) (y : Cycle fs net bus)
      → IsNoWrap cmd
      → IsLatch n y
      → IsLatch n (on_command fs net bus cmd y)
  unfolding on_command
  on_command-IsLatch n (manual_io w i o) y q e = e
  on_command-IsLatch n cmd y q e = ground (arith, operate-IsLatch n cmd y)

  drive_latch :
      (i : Inputs) (b : Bool) (c : Control fs)
      → (drive fs i (arm fs b c)).0.full_latch_remaining ≡ c.full_latch_remaining
  unfolding drive arm
  drive_latch i b c = ground arith

  -- In a cycle with no wrap command the latch is set to 2000 by a debounced full bale on a healthy bus,
  -- and otherwise counts down and stops at 0.
  pub step_latch :
      (w : World fs net bus) (c : Control fs) (i : Inputs) (cmds : List Command)
      → All IsNoWrap cmds
      → (step fs net bus w c i cmds).1.full_latch_remaining
        ≡ next_latch (sees_full c i) c.full_latch_remaining
  unfolding step
  step_latch w c i cmds q =
      let y = begin fs net bus w c i in
      let z = on_commands fs net bus cmds y in
      drive_latch i z.got_manual z.control
      ∙ on_commands_keep fs net bus (IsLatch y.control.full_latch_remaining) IsNoWrap
          (on_command-IsLatch y.control.full_latch_remaining) cmds y q refl
      ∙ begin_latch w c i

  run_latch :
      (s : System fs net bus) (h : History)
      → NoWrap h
      → s.control.full_latch_remaining ≤ full_latch_cycles
      → s.control.full_latch_remaining
        ≤ (run fs net bus s h).control.full_latch_remaining + length h
  unfolding run
  run_latch s [] q b = omega arith
  run_latch s ((i, cmds) ∷ h) q b =
      let t = run fs net bus s h in
      ground (arith, step_latch t.world t.control i cmds q.0, run_latch s h q.1 b)

  -- After a cycle that sees a full bale, the snapshot stays latched for 1999 further cycles whatever
  -- the inputs are, as long as no wrap is commanded: 20 s in all.
  pub latch_holds :
      (w : World fs net bus) (c : Control fs) (i : Inputs) (cmds : List Command) (h : History)
      → sees_full c i ≡ true
      → All IsNoWrap cmds
      → NoWrap h
      → length h < full_latch_cycles
      → let (w', c', out, snap) = step fs net bus w c i cmds in
        (snapshot fs (run fs net bus (record { world = w'; control = c' }) h).control).full_latched
        ≡ true
  unfolding snapshot
  latch_holds w c i cmds h full q r l =
      let (w', c', out, snap) = step fs net bus w c i cmds in
      let s : System fs net bus = record { world = w'; control = c' } in
      let start = step_latch w c i cmds q in ground (arith, run_latch s h r, start)

  -- A wrap command clears the latch, on a healthy bus outside maintenance and manual-IO mode, even
  -- in a cycle that sees a full bale.
  pub wrap_clears_latch :
      (w : World fs net bus) (c : Control fs) (i : Inputs)
      → i.healthy ≡ true
      → c.state.mode ≢ ethernet
      → c.manual_io_remaining ≡ 0
      → let (w', c', out, snap) = step fs net bus w c i (wrap ∷ []) in
        (snap.full_latched ≡ false) × (c'.full_latch_remaining ≡ 0)
  unfolding step snapshot begin sense latch count_bale Store.increment_bale on_commands on_command
      operate perform State.handle State.on_bus_health State.on_inputs drive arm
  wrap_clears_latch w c i h m r = ground arith
