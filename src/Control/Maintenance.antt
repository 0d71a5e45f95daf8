-- ===== src/Control/Maintenance.antt =====
-- The switch to Ethernet maintenance mode and back, and what the snapshot says of it.
use claas_rollant.Prelude.{
  none, ◌≡◌, ◌∙◌, ◌≢◌, true, false, ◌||◌, List, [], ◌∷◌, arith, is_some, to_option,
}
use claas_rollant.Ipc.{
  Command, enter_ethernet, return_to_ethercat, operational, initializing, ethernet, unknown,
}
use claas_rollant.State
use claas_rollant.Counter.Files.{FileSystem}
use claas_rollant.Counter.Store
use claas_rollant.Ports.{Inputs, NetworkController, BusController}
use claas_rollant.Control.{
  Control, World, Cycle, sense, latch, count_bale, operate, on_command, on_commands, begin, step,
  perform, snapshot, knife_active,
}
use claas_rollant.Control.Invariant.{IsValid, step-IsValid}
use claas_rollant.Control.NoSwitch.{begin_links, drive_mode, begin_mode}
use claas_rollant.Control.Manual.{begin_manual}
use claas_rollant.Control.Freeze.{begin-Frozen}

module _ (fs : FileSystem) (net : NetworkController) (bus : BusController) where
  command_enter :
      (y : Cycle fs net bus)
      → y.control.manual_io_remaining ≡ 0
      → y.control.state.mode ≢ ethernet
      → (y.control.state.mode ≡ operational
          → (y.control.wrap.active || knife_active fs y.control) ≡ false)
      → let z = on_commands fs net bus (enter_ethernet ∷ []) y in
        (z.world.master ≡ bus.suspend y.world.master)
        × (z.world.network ≡ (net.enter_ethernet y.world.network).0)
        × (z.control.state.mode ≡ ethernet)
        × (z.control.last_ip ≡ to_option (net.enter_ethernet y.world.network).1)
  unfolding on_commands on_command operate perform State.handle
  command_enter y m e p = ground arith

  -- `EnterEthernet` as the only command of a cycle, with no pulse in flight, outside manual-IO mode and in any other mode than
  -- Ethernet: the bus master is suspended, the network is brought up, the mode is Ethernet, and the
  -- snapshot shows an address exactly when bringing up the network gave one. The bus need not be healthy.
  pub step_enter :
      (w : World fs net bus) (c : Control fs) (i : Inputs)
      → c.manual_io_remaining ≡ 0
      → c.state.mode ≢ ethernet
      → (c.wrap.active || knife_active fs c) ≡ false
      → let (w', c', out, snap) = step fs net bus w c i (enter_ethernet ∷ []) in
        (w'.master ≡ bus.suspend w.master)
        × (w'.network ≡ (net.enter_ethernet w.network).0)
        × (snap.mode ≡ ethernet)
        × (snap.ip_valid ≡ is_some (to_option (net.enter_ethernet w.network).1))
  unfolding step snapshot
  step_enter w c i m e p =
      let y = begin fs net bus w c i in
      let z = on_commands fs net bus (enter_ethernet ∷ []) y in
      let (manual, got) = begin_manual fs net bus w c i in
      let frozen = begin-Frozen fs net bus w c i in
      let (a, b, mode, ip) =
        command_enter y (manual ∙ m) (begin_mode fs net bus w c i e)
          (λ o. ground (arith, frozen)) in
      let (n, l) = begin_links fs net bus w c i in
      let (state, shown) = drive_mode fs net bus i z.got_manual z.control in
      ground (arith, a, b, mode, ip, n, l, state, shown)

  command_return :
      (y : Cycle fs net bus)
      → y.control.manual_io_remaining ≡ 0
      → y.control.state.mode ≡ ethernet
      → let z = on_commands fs net bus (return_to_ethercat ∷ []) y in
        (z.world.master ≡ bus.restart y.world.master)
        × (z.world.network ≡ (net.enter_ethercat y.world.network).0)
        × (z.control.state.mode ≡ initializing)
        × (z.control.last_ip ≡ none)
  unfolding on_commands on_command operate perform State.handle
  command_return y m e = ground arith

  begin_ethernet :
      (w : World fs net bus) (c : Control fs) (i : Inputs)
      → c.state.mode ≡ ethernet
      → (begin fs net bus w c i).control.state.mode ≡ ethernet
  unfolding begin sense latch count_bale Store.increment_bale State.on_bus_health State.on_inputs
  begin_ethernet w c i m = ground arith

  -- `ReturnToEthercat` in Ethernet mode, outside manual-IO mode: the network is switched back, even if
  -- that fails, a restart is asked of the bus master, and the snapshot shows the machine initializing
  -- without an address.
  pub step_return :
      (w : World fs net bus) (c : Control fs) (i : Inputs)
      → c.manual_io_remaining ≡ 0
      → c.state.mode ≡ ethernet
      → let (w', c', out, snap) = step fs net bus w c i (return_to_ethercat ∷ []) in
        (w'.master ≡ bus.restart w.master)
        × (w'.network ≡ (net.enter_ethercat w.network).0)
        × (snap.mode ≡ initializing)
        × (snap.ip_valid ≡ false)
  unfolding step snapshot
  step_return w c i m e =
      let y = begin fs net bus w c i in
      let z = on_commands fs net bus (return_to_ethercat ∷ []) y in
      let (manual, got) = begin_manual fs net bus w c i in
      let (a, b, mode, ip) = command_return y (manual ∙ m) (begin_ethernet w c i e) in
      let (n, l) = begin_links fs net bus w c i in
      let (state, shown) = drive_mode fs net bus i z.got_manual z.control in
      ground (arith, a, b, mode, ip, n, l, state, shown)

  snapshot_consistent :
      (c : Control fs)
      → IsValid fs c
      → let snap = snapshot fs c in
        (snap.mode ≢ operational
          → (snap.bale_full ≡ false) × (snap.knife ≡ unknown) × (snap.wrap_armed ≡ false))
        × (snap.ip_valid ≡ true → snap.mode ≡ ethernet)
  unfolding snapshot State.wrap_armed
  snapshot_consistent c v = ground arith

  -- From a valid state, what a snapshot shows is consistent: outside operational the inputs are
  -- unknown and the wrap hint is off, and an address is shown only in Ethernet mode.
  pub step_snapshot :
      (w : World fs net bus) (c : Control fs) (i : Inputs) (cmds : List Command)
      → IsValid fs c
      → let (w', c', out, snap) = step fs net bus w c i cmds in
        (snap.mode ≢ operational
          → (snap.bale_full ≡ false) × (snap.knife ≡ unknown) × (snap.wrap_armed ≡ false))
        × (snap.ip_valid ≡ true → snap.mode ≡ ethernet)
  unfolding step
  step_snapshot w c i cmds v =
      snapshot_consistent (step fs net bus w c i cmds).1 (step-IsValid fs net bus w c i cmds v)
