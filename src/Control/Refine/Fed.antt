-- ===== src/Control/Refine/Fed.antt =====
-- The debouncers over a history of cycles: what they hold is the reference over all its samples.
use claas_rollant.Prelude.{◌≡◌, ap, ◌∙◌, Bool, false, List, ◌∷◌, map, arith}
use claas_rollant.Ipc.{Command}
use claas_rollant.Counter.Files.{FileSystem}
use claas_rollant.Counter.Store
use claas_rollant.InputConditioner as Conditioner
use claas_rollant.InputConditioner.{Debouncer}
use claas_rollant.InputConditioner.Reference.{debounced, level-feed}
use claas_rollant.Ports.{Inputs, NetworkController, BusController}
use claas_rollant.Control.{
  Control, World, arm, drive, on_commands, begin, sense, latch, count_bale, step,
}
use claas_rollant.Control.Commands.{on_commands-Untouched}
use claas_rollant.Control.History.{History}
use claas_rollant.Control.Spec.{Levels}
use claas_rollant.Control.Refine.{levels}

module _ (fs : FileSystem) (net : NetworkController) (bus : BusController) where
  -- The levels of a cycle as a function of all the samples so far, by the reference debouncer.
  abbrev pub settled : Inputs → History → Levels
  settled i h = record {
    healthy = i.healthy;
    full = debounced 3 false (i.bale_full ∷ map (λ cycle. cycle.0.bale_full) h);
    knife = debounced 3 false (i.knife_in ∷ map (λ cycle. cycle.0.knife_in) h);
    opened = debounced 3 false (i.bale_open ∷ map (λ cycle. cycle.0.bale_open) h);
  }

  begin_debouncers :
      (w : World fs net bus) (c : Control fs) (i : Inputs)
      → let d = (begin fs net bus w c i).control in
        (d.full_db ≡ (Conditioner.update c.full_db i.bale_full).0)
        × (d.knife_db ≡ (Conditioner.update c.knife_db i.knife_in).0)
        × (d.open_db ≡ (Conditioner.update c.open_db i.bale_open).0)
  unfolding begin sense latch count_bale Store.increment_bale
  begin_debouncers w c i = ground arith

  drive_debouncers :
      (i : Inputs) (b : Bool) (c : Control fs)
      → let d = (drive fs i (arm fs b c)).0 in
        (d.full_db ≡ c.full_db) × (d.knife_db ≡ c.knife_db) × (d.open_db ≡ c.open_db)
  unfolding drive arm
  drive_debouncers i b c = ground arith

  step_debouncers :
      (w : World fs net bus) (c : Control fs) (i : Inputs) (cmds : List Command)
      → let d = (step fs net bus w c i cmds).1 in
        (d.full_db ≡ (Conditioner.update c.full_db i.bale_full).0)
        × (d.knife_db ≡ (Conditioner.update c.knife_db i.knife_in).0)
        × (d.open_db ≡ (Conditioner.update c.open_db i.bale_open).0)
  unfolding step
  step_debouncers w c i cmds =
      let y = begin fs net bus w c i in
      let z = on_commands fs net bus cmds y in
      ground (
        arith,
        begin_debouncers w c i,
        on_commands-Untouched fs net bus cmds y,
        drive_debouncers i z.got_manual z.control,
      )

  -- The debouncers have been fed the samples of a history.
  abbrev pub fed : List Bool → Debouncer
  fed samples = Conditioner.feed (Conditioner.new 3 false) samples

  pub record IsFed (h : History) (c : Control fs) : Type 0 where
    pub full : c.full_db ≡ fed (map (λ cycle. cycle.0.bale_full) h)
    pub knife : c.knife_db ≡ fed (map (λ cycle. cycle.0.knife_in) h)
    pub opened : c.open_db ≡ fed (map (λ cycle. cycle.0.bale_open) h)

  -- One more sample, by the reference.
  pub level_next :
      (d : Debouncer) (samples : List Bool) (b : Bool)
      → d ≡ fed samples
      → ((Conditioner.update d b).0 ≡ fed (b ∷ samples))
        × ((Conditioner.update d b).0.level ≡ debounced 3 false (b ∷ samples))
  unfolding Conditioner.feed
  level_next d samples b e =
      let next : (Conditioner.update d b).0 ≡ fed (b ∷ samples) =
        ap (λ x. (Conditioner.update x b).0) e in
      (next, ap (λ (x : Debouncer). x.level) next ∙ level-feed 3 false (b ∷ samples) (omega arith))

  pub step-IsFed :
      (h : History) (w : World fs net bus) (c : Control fs) (i : Inputs) (cmds : List Command)
      → IsFed h c
      → IsFed ((i, cmds) ∷ h) (step fs net bus w c i cmds).1 × (levels fs net bus c i ≡ settled i h)
  step-IsFed h w c i cmds f =
      let (a, b, d) = step_debouncers w c i cmds in
      let full = level_next c.full_db (map (λ cycle. cycle.0.bale_full) h) i.bale_full f.full in
      let knife = level_next c.knife_db (map (λ cycle. cycle.0.knife_in) h) i.knife_in f.knife in
      let opened = level_next c.open_db (map (λ cycle. cycle.0.bale_open) h) i.bale_open f.opened in
      (
        record { full = a ∙ full.0; knife = b ∙ knife.0; opened = d ∙ opened.0 },
        ground (arith, full.1, knife.1, opened.1),
      )
