-- ===== src/Control/Commands.antt =====
-- The loop over the commands of a cycle: what no command changes, and what only some do.
use claas_rollant.Prelude.{◌≡◌, refl, Bool, true, false, ◌||◌, List, [], ◌∷◌, All, arith}
use claas_rollant.Ipc.{Command, wrap, manual_io}
use claas_rollant.State
use claas_rollant.Counter.Files.{FileSystem}
use claas_rollant.Counter.Store
use claas_rollant.Ports.{NetworkController, BusController}
use claas_rollant.Control.{
  Control, Cycle, fire_directional, perform, operate, on_command, on_commands,
}

abbrev pub is_manual : Command → Bool
is_manual (manual_io w i o) = true
is_manual _ = false

-- Some command of the list is a `ManualIo`.
abbrev pub has_manual : List Command → Bool
has_manual [] = false
has_manual (cmd ∷ cmds) = is_manual cmd || has_manual cmds

pub All-units : (cmds : List Command) → All (λ _. Unit {0}) cmds
All-units [] = tt
All-units (cmd ∷ cmds) = (tt, All-units cmds)

module _ (fs : FileSystem) (net : NetworkController) (bus : BusController) where
  -- What each command of a kind keeps, the loop keeps.
  pub on_commands_keep {ℓ κ} :
      (P : Cycle fs net bus → Type ℓ) (Q : Command → Type κ)
      → ((cmd : Command) (y : Cycle fs net bus) → Q cmd → P y → P (on_command fs net bus cmd y))
      → (cmds : List Command) (y : Cycle fs net bus) → All Q cmds
      → P y
      → P (on_commands fs net bus cmds y)
  unfolding on_commands
  on_commands_keep P Q keep [] y q p = p
  on_commands_keep P Q keep (cmd ∷ cmds) y q p =
      on_commands_keep P Q keep cmds (on_command fs net bus cmd y) q.1 (keep cmd y q.0 p)

  -- The parts of the state that no command touches.
  pub record Untouched (c d : Control fs) : Type 0 where
    pub manual_same : d.manual_io_remaining ≡ c.manual_io_remaining
    pub full_db_same : d.full_db ≡ c.full_db
    pub knife_db_same : d.knife_db ≡ c.knife_db
    pub open_db_same : d.open_db ≡ c.open_db
    pub last_open_same : d.last_open_level ≡ c.last_open_level
    pub di1_same : d.last_di1 ≡ c.last_di1
    pub di2_same : d.last_di2 ≡ c.last_di2
    pub di3_same : d.last_di3 ≡ c.last_di3

  operate-Untouched :
      (cmd : Command) (y : Cycle fs net bus) (c : Control fs)
      → Untouched c y.control
      → Untouched c (operate fs net bus cmd y).control
  unfolding operate perform State.handle Store.reset_session Store.adjust_session Store.reset_total
      fire_directional
  operate-Untouched wrap y c u = ground arith
  operate-Untouched cmd y c u = ground arith

  on_command-Untouched :
      (c : Control fs) (cmd : Command) (y : Cycle fs net bus)
      → Unit {0}
      → Untouched c y.control
      → Untouched c (on_command fs net bus cmd y).control
  unfolding on_command
  on_command-Untouched c (manual_io w i o) y q u = ground arith
  on_command-Untouched c cmd y q u = ground (arith, operate-Untouched cmd y c u)

  pub on_commands-Untouched :
      (cmds : List Command) (y : Cycle fs net bus)
      → Untouched y.control (on_commands fs net bus cmds y).control
  on_commands-Untouched cmds y =
      on_commands_keep (λ z. Untouched y.control z.control) (λ _. Unit {0})
        (on_command-Untouched y.control) cmds y (All-units cmds) (ground arith)

  operate_got :
      (cmd : Command) (y : Cycle fs net bus) → (operate fs net bus cmd y).got_manual ≡ y.got_manual
  unfolding operate
  operate_got cmd y = refl

  pub on_commands_got :
      (cmds : List Command) (y : Cycle fs net bus)
      → (on_commands fs net bus cmds y).got_manual ≡ (y.got_manual || has_manual cmds)
  unfolding on_commands on_command
  on_commands_got [] y = ground arith
  on_commands_got (manual_io w i o ∷ cmds) y =
      ground (arith, on_commands_got cmds (on_command fs net bus (manual_io w i o) y))
  on_commands_got (cmd ∷ cmds) y =
      ground (arith, operate_got cmd y, on_commands_got cmds (on_command fs net bus cmd y))
