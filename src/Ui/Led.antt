-- ===== src/Ui/Led.antt =====
-- The beacon: `LedBeacon::tick` of src/baler-ui/src/main.rs, as the values it sets; the LEDs are third
-- party, and the memory of the last values only avoids setting them again.
use claas_rollant.Prelude.{
  ℕ, ◌-◌, ◌*◌, ◌/◌, ◌%◌, ◌≤◌, ◌≡◌, ◌+◌, ◌^◌, Bool, true, false, ◌||◌, if◌then◌else◌, ltb, ◌==◌,
  arith,
}
use claas_rollant.Ipc.{Mode, StateSnapshot, initializing, operational, fault, ethernet}

-- The red, green and blue of the status LED and of the keypad.
pub record Colours : Type 0 where
  pub sr : ℕ
  pub sg : ℕ
  pub sb : ℕ
  pub kr : ℕ
  pub kg : ℕ
  pub kb : ℕ

abbrev colours : ℕ → ℕ → ℕ → ℕ → ℕ → ℕ → Colours
colours sr sg sb kr kg kb = record { sr = sr; sg = sg; sb = sb; kr = kr; kg = kg; kb = kb }

unfoldable pub ramp : ℕ → ℕ
ramp t = let phase = t % 1200 in if ltb phase 600 then phase else 1200 - phase

-- `(ramp * 255 / 600) as u8`
unfoldable pub amber_pwm : ℕ → ℕ
amber_pwm t = (ramp t * 255 / 600) % 2 ^ 8

unfoldable pub flash_on : ℕ → Bool
flash_on t = ((t / 125) % 2) == 0

abbrev mode_colours : ℕ → Mode → Bool → Colours
mode_colours t fault full = colours 1 0 0 255 0 0
mode_colours t ethernet full = colours 0 0 1 0 0 255
mode_colours t _ true = colours 1 1 0 (amber_pwm t) ((amber_pwm t * 90 / 255) % 2 ^ 8) 0
mode_colours t operational false = colours 0 1 0 0 200 0
mode_colours t initializing false = colours 0 0 1 0 0 120

-- The colours `t` milliseconds after the start.
unfoldable pub beacon : ℕ → StateSnapshot → Colours
beacon t s =
    if s.wrap_active || s.knife_active
    then (if flash_on t then colours 1 1 1 255 255 255 else colours 0 0 0 0 0 0)
    else mode_colours t s.mode s.bale_full

-- The keypad's ramp loses nothing when it is cut to eight bits.
amber_pwm_exact : (t : ℕ) → amber_pwm t ≡ ramp t * 255 / 600
unfolding amber_pwm ramp
amber_pwm_exact t = ground arith

ramp_periodic : (t : ℕ) → ramp (t + 1200) ≡ ramp t
unfolding ramp
ramp_periodic t = grind arith

-- The ramp repeats every 1200 ms, goes up for 600 ms and down as long, and its light is not cut by the
-- eight bits of the output.
pub amber_pwm_lem :
    (t : ℕ) → (ramp (t + 1200) ≡ ramp t) × (ramp t ≤ 600) × (amber_pwm t ≡ ramp t * 255 / 600)
unfolding ramp
amber_pwm_lem t = (ramp_periodic t, ground arith, amber_pwm_exact t)
