-- ===== src/Control/Counting.antt =====
-- The bale count against the history of the baler-open input.
use claas_rollant.Prelude.{
  ℕ, suc, ◌+◌, ◌≤◌, ◌≡◌, refl, sym, ap, ◌∙◌, Bool, false, not, ◌&&◌, List, [], ◌∷◌, All, arith,
  if◌then◌else◌, map, min, max_u64, sat_add_u64,
}
use claas_rollant.Ipc.{Command, reset_total, manual_io}
use claas_rollant.State
use claas_rollant.Counter.Files.{FileSystem}
use claas_rollant.Counter.Store
use claas_rollant.InputConditioner as Conditioner
use claas_rollant.InputConditioner.Reference.{debounced, level-feed}
use claas_rollant.Ports.{Inputs, NetworkController, BusController}
use claas_rollant.Control.{
  Control, World, Cycle, sense, latch, arm, drive, count_bale, operate, on_command, on_commands,
  begin, step, perform, fire_directional, initial,
}
use claas_rollant.Control.Commands.{on_commands_keep, on_commands-Untouched}
use claas_rollant.Control.History.{History, run}

abbrev pub IsNoTotalReset : Command → Type 0
IsNoTotalReset reset_total = ⊥
IsNoTotalReset _ = Unit {0}

abbrev pub NoTotalReset : History → Type 0
NoTotalReset = All (λ cycle. All IsNoTotalReset cycle.1)

-- The samples of DI3 in a history.
abbrev pub opens : History → List Bool
opens = map (λ cycle. cycle.0.bale_open)

-- The bales of a history: its healthy cycles in which the debounced DI3 is high and was low before.
pub bales : History → ℕ
bales [] = 0
bales ((i, cmds) ∷ h) =
    let rest = bales h in
    if i.healthy && (debounced 3 false (i.bale_open ∷ opens h) && not (debounced 3 false (opens h)))
    then suc rest
    else rest

module _ (fs : FileSystem) (net : NetworkController) (bus : BusController) where
  abbrev total : Control fs → ℕ
  total c = c.counters.counters.total

  begin_total :
      (w : World fs net bus) (c : Control fs) (i : Inputs)
      → let level = (Conditioner.update c.open_db i.bale_open).0.level in
        let d = (begin fs net bus w c i).control in
        (total d ≡ (
          if i.healthy && (level && not c.last_open_level)
          then sat_add_u64 (total c) 1
          else total c))
        × (d.last_open_level ≡ level)
        × (d.open_db ≡ (Conditioner.update c.open_db i.bale_open).0)
  unfolding begin sense latch count_bale Store.increment_bale Store.bump
  begin_total w c i = ground arith

  operate_total :
      (n : ℕ) (cmd : Command) (y : Cycle fs net bus)
      → IsNoTotalReset cmd
      → total y.control ≡ n
      → total (operate fs net bus cmd y).control ≡ n
  unfolding operate perform State.handle Store.reset_session Store.adjust_session
      Store.session_cleared Store.adjusted fire_directional
  operate_total n reset_total y q e = absurd q
  operate_total n cmd y q e = ground arith

  on_command_total :
      (n : ℕ) (cmd : Command) (y : Cycle fs net bus)
      → IsNoTotalReset cmd
      → total y.control ≡ n
      → total (on_command fs net bus cmd y).control ≡ n
  unfolding on_command
  on_command_total n (manual_io w i o) y q e = e
  on_command_total n cmd y q e = ground (arith, operate_total n cmd y q e)

  drive_total :
      (i : Inputs) (b : Bool) (c : Control fs)
      → let d = (drive fs i (arm fs b c)).0 in
        (total d ≡ total c) × (d.last_open_level ≡ c.last_open_level) × (d.open_db ≡ c.open_db)
  unfolding drive arm
  drive_total i b c = ground arith

  step_total :
      (w : World fs net bus) (c : Control fs) (i : Inputs) (cmds : List Command)
      → All IsNoTotalReset cmds
      → let level = (Conditioner.update c.open_db i.bale_open).0.level in
        let d = (step fs net bus w c i cmds).1 in
        (total d ≡ (
          if i.healthy && (level && not c.last_open_level)
          then sat_add_u64 (total c) 1
          else total c))
        × (d.last_open_level ≡ level)
        × (d.open_db ≡ (Conditioner.update c.open_db i.bale_open).0)
  unfolding step
  step_total w c i cmds q =
      let y = begin fs net bus w c i in
      let z = on_commands fs net bus cmds y in
      let n = total y.control in
      let kept =
        on_commands_keep fs net bus (λ x. total x.control ≡ n) IsNoTotalReset (on_command_total n)
          cmds y q refl in
      let u = on_commands-Untouched fs net bus cmds y in
      let (b0, b1, b2) = begin_total w c i in
      let (d0, d1, d2) = drive_total i z.got_manual z.control in
      (d0 ∙ kept ∙ b0, d1 ∙ u.last_open_same ∙ b1, d2 ∙ u.open_db_same ∙ b2)

  -- What the counting state is after a history.
  record Counted (store : Store.CounterStore fs) (h : History) (c : Control fs) : Type 0 where
    counted : total c ≡ min (store.counters.total + bales h) max_u64
    level_seen : c.last_open_level ≡ c.open_db.level
    fed : c.open_db ≡ Conditioner.feed (Conditioner.new 3 false) (opens h)

  Counted-step :
      (store : Store.CounterStore fs) (h : History) (i : Inputs) (cmds : List Command)
      (w : World fs net bus) (c : Control fs)
      → Counted store h c
      → All IsNoTotalReset cmds
      → Counted store ((i, cmds) ∷ h) (step fs net bus w c i cmds).1
  unfolding bales
  Counted-step store h i cmds w c k q =
      let start = Conditioner.new 3 false in
      let (grown, level, db) = step_total w c i cmds q in
      let fed : (Conditioner.update c.open_db i.bale_open).0
          ≡ Conditioner.feed start (i.bale_open ∷ opens h) =
        unfold Conditioner.feed in ap (λ d. (Conditioner.update d i.bale_open).0) k.fed in
      let now =
        ap (λ (d : Conditioner.Debouncer). d.level) fed
        ∙ level-feed 3 false (i.bale_open ∷ opens h) (omega arith) in
      let before =
        k.level_seen
        ∙ ap (λ (d : Conditioner.Debouncer). d.level) k.fed
        ∙ level-feed 3 false (opens h) (omega arith) in
      record {
        counted = ground (arith, grown, now, before, k.counted);
        level_seen = level ∙ sym (ap (λ (d : Conditioner.Debouncer). d.level) db);
        fed = db ∙ fed;
      }

  Counted-run :
      (store : Store.CounterStore fs) (w : World fs net bus) (h : History)
      → store.counters.total ≤ max_u64
      → NoTotalReset h
      → Counted store h
          (run fs net bus (record { world = w; control = initial fs store }) h).control
  unfolding run bales Conditioner.feed
  Counted-run store w [] f q = unfold Conditioner.new in ground arith
  Counted-run store w ((i, cmds) ∷ h) f q =
      let t = run fs net bus (record { world = w; control = initial fs store }) h in
      Counted-step store h i cmds t.world t.control (Counted-run store w h f q.1) q.0

  -- After any history without a reset of the total, from a loaded total that fits in a u64, the
  -- total is the loaded one plus one for each rising edge of the debounced DI3 in a healthy cycle,
  -- up to the largest u64. Wraps, knife pulses, session commands, mode switches and manual IO do
  -- not change it.
  pub total-run :
      (store : Store.CounterStore fs) (w : World fs net bus) (h : History)
      → store.counters.total ≤ max_u64
      → NoTotalReset h
      → (run fs net bus
          (record { world = w; control = initial fs store })
          h).control.counters.counters.total
        ≡ min (store.counters.total + bales h) max_u64
  total-run store w h f q = (Counted-run store w h f q).counted
