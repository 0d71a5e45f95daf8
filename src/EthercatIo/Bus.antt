-- ===== src/EthercatIo/Bus.antt =====
-- The bus handle: draining, writing on change, and being suspended.
use claas_rollant.Prelude.{
  ℕ, zero, suc, ◌<◌, ◌≡◌, refl, Bool, true, false, List, none, some, ok, is_ok, is_some, arith,
  Result-cases, Option-cases, inl, inr,
}
use claas_rollant.Ipc.{Command, manual_io, enter_ethernet, ethernet}
use claas_rollant.State
use claas_rollant.Counter.Files.{FileSystem}
use claas_rollant.Counter.Store
use claas_rollant.Ports.{Inputs, Outputs, NetworkController}
use claas_rollant.Control.{
  Control, World, Cycle, sense, latch, arm, drive, count_bale, operate, on_command, on_commands,
  begin, step, perform, fire_directional,
}
use claas_rollant.Control.Commands.{on_commands_keep, All-units}
use claas_rollant.EthercatIo.{
  Channels, WagoBus, drain, decode, poll, down_inputs, encode, write, take_restart_request, suspend,
  restart, controller, is_healthy,
}

module _ (ch : Channels) where
  -- A suspended bus reads as down with all inputs low, and drives nothing.
  pub suspended_quiet :
      (b : WagoBus ch) (fuel : ℕ) (out : Outputs)
      → (poll ch fuel (suspend ch b) ≡ some (suspend ch b, down_inputs ch))
        × (write ch (suspend ch b) out ≡ suspend ch b)
  unfolding poll write suspend
  suspended_quiet b fuel out = (refl, refl)

  -- On a bus that is not suspended, outputs that were sent last are not sent again, a write whose
  -- send succeeds is not repeated for the same outputs, and a send that fails leaves the last
  -- output as it was.
  pub write_on_change :
      (b : WagoBus ch) (out : Outputs)
      → is_some b.connector ≡ true
      → ((b.last_output ≡ some (encode ch out)) → write ch b out ≡ b)
        × (is_ok (ch.send (encode ch out) b.writer).1 ≡ true
            → write ch (write ch b out) out ≡ write ch b out)
        × (is_ok (ch.send (encode ch out) b.writer).1 ≡ false
            → (write ch b out).last_output ≡ b.last_output)
  unfolding write
  write_on_change b out h = ground arith

  -- A request for a restart is reported once.
  pub restart_once :
      (b : WagoBus ch)
      → let (b', first) = take_restart_request ch (restart ch b) in
        (first ≡ true) × ((take_restart_request ch b').1 ≡ false)
  unfolding take_restart_request restart
  restart_once b = (refl, refl)

  module _ (pending : ch.Reader → ℕ)
      (received : (r r' : ch.Reader) (v : ℕ)
        → ch.try_recv r ≡ (r', ok (some v))
        → pending r' < pending r) where
    drain_total :
        (fuel : ℕ) (b : WagoBus ch)
        → pending b.reader < fuel
        → (b' : WagoBus ch) × (drain ch fuel b ≡ some b')
          × (b'.connector ≡ b.connector)
          × (b'.restart_requested ≡ b.restart_requested)
          × (b'.health ≡ b.health)
    unfolding drain
    drain_total zero b h = absurd (omega arith)
    drain_total (suc fuel) b h = elim (Result-cases (ch.try_recv b.reader).1) [
      | inr (x, e) ↦
          (record b { reader = (ch.try_recv b.reader).0 }, rw (e, drain) refl, refl, refl, refl)
      | inl (o, e) ↦ elim (Option-cases o) [
        | inl q ↦ (
          record b { reader = (ch.try_recv b.reader).0 },
          rw (e, drain) (rw q refl),
          refl,
          refl,
          refl,
        )
        | inr (v, q) ↦
            let next : WagoBus ch = record b {
              reader = (ch.try_recv b.reader).0;
              last_input = v;
            } in
            let fewer = received b.reader (ch.try_recv b.reader).0 v (ground arith) in
            let (b', run, same, asked, health) = drain_total fuel next (omega arith) in
            (b', rw (e, drain) (rw q run), same, asked, health)
      ]
    ]

    -- If each value that is received leaves fewer pending, a poll returns with fuel above the number
    -- pending, never brings a suspended bus back, keeps a request for a restart as it is, and tells
    -- whether the bus is healthy.
    pub poll_total :
        (fuel : ℕ) (b : WagoBus ch)
        → pending b.reader < fuel
        → (b' : WagoBus ch) × (i : Inputs) × (poll ch fuel b ≡ some (b', i))
          × (b'.connector ≡ b.connector)
          × (b'.restart_requested ≡ b.restart_requested)
          × (i.healthy ≡ is_healthy ch b)
    unfolding poll is_healthy decode
    poll_total fuel b h = elim (Option-cases b.connector) [
      | inl e ↦ (b, down_inputs ch, ground arith, refl, refl, ground arith)
      | inr (c, e) ↦
          let (b', run, same, asked, health) = drain_total fuel b h in
          (b', decode ch b', ground arith, same, asked, ground arith)
    ]

module _ (fs : FileSystem) (net : NetworkController) (ch : Channels) where
  -- In Ethernet mode the bus master is gone.
  abbrev pub IsQuiet : World fs net (controller ch) → Control fs → Type 0
  IsQuiet w c = c.state.mode ≡ ethernet → w.master.connector ≡ none

  abbrev QuietCycle : Cycle fs net (controller ch) → Type 0
  QuietCycle y = IsQuiet y.world y.control

  operate_quiet :
      (cmd : Command) (y : Cycle fs net (controller ch))
      → QuietCycle y
      → QuietCycle (operate fs net (controller ch) cmd y)
  unfolding operate perform State.handle Store.reset_session Store.adjust_session Store.reset_total
      fire_directional suspend
  operate_quiet enter_ethernet y q = ground arith
  operate_quiet cmd y q = ground arith

  on_command_quiet :
      (cmd : Command) (y : Cycle fs net (controller ch))
      → Unit {0}
      → QuietCycle y
      → QuietCycle (on_command fs net (controller ch) cmd y)
  unfolding on_command
  on_command_quiet (manual_io w i o) y u q = q
  on_command_quiet cmd y u q = ground (arith, operate_quiet cmd y)

  begin_quiet :
      (w : World fs net (controller ch)) (c : Control fs) (i : Inputs)
      → IsQuiet w c
      → QuietCycle (begin fs net (controller ch) w c i)
  unfolding begin sense latch count_bale Store.increment_bale State.on_bus_health State.on_inputs
  begin_quiet w c i q = ground arith

  state-drive :
      (i : Inputs) (b : Bool) (c : Control fs) → (drive fs i (arm fs b c)).0.state ≡ c.state
  unfolding drive arm
  state-drive i b c = ground arith

  -- Control and bus together: while the mode is Ethernet the bus master is torn down. Every cycle keeps
  -- this, for all inputs and commands.
  pub step-IsQuiet :
      (w : World fs net (controller ch)) (c : Control fs) (i : Inputs) (cmds : List Command)
      → IsQuiet w c
      → let (w', c', out, snap) = step fs net (controller ch) w c i cmds in IsQuiet w' c'
  unfolding step
  step-IsQuiet w c i cmds q =
      let y = begin fs net (controller ch) w c i in
      let z = on_commands fs net (controller ch) cmds y in
      let kept =
        on_commands_keep fs net (controller ch) QuietCycle (λ _. Unit {0}) on_command_quiet cmds y
          (All-units cmds) (begin_quiet w c i q) in
      ground (arith, kept, state-drive i z.got_manual z.control)
