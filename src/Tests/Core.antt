-- ===== src/Tests/Core.antt =====
-- The state machine, the debouncer, the pulse engine and the bring-up.
use claas_rollant.Prelude.{◌≡◌, refl, true, false, some, ok, err, arith}
use claas_rollant.Ipc.{operational}
use claas_rollant.State.{BalerState}
use claas_rollant.State.Modes.{Moves, call, health, call-Moves}
use claas_rollant.Bringup.{retry_open}
use claas_rollant.Bringup.Outcome.{
  Fails, after_failures, after_failure, retry_open_recovers, retry_open_gives_up,
}
use claas_rollant.Tests.Data.{failing}

abbrev running : BalerState
running = record { mode = operational; bale_full = true; knife_in = some false }

call-Moves_example : Moves operational (health false) (call running (health false)).mode
call-Moves_example = call-Moves running (health false)

Fails-twice : Fails failing 1 2 4
unfolding after_failure
Fails-twice = (refl, (refl, tt))

opens_third : failing.open_once (after_failures failing 1 2 4) ≡ (0, ok true)
unfolding after_failures after_failure
opens_third = refl

retry_open_recovers_example : retry_open failing 10 4 ≡ some (0, ok true)
retry_open_recovers_example =
    retry_open_recovers failing 2 10 4 0 true (omega arith) Fails-twice opens_third

-- With two attempts the last failure, a corruption, is cleaned up after.
Fails-once : Fails failing 1 1 4
Fails-once = (refl, tt)

fails_second : failing.open_once (after_failures failing 1 1 4) ≡ (1, err true)
unfolding after_failures after_failure
fails_second = refl

retry_open_gives_up_example : retry_open failing 2 4 ≡ some (0, err true)
retry_open_gives_up_example =
    retry_open_gives_up failing 1 2 4 1 true (omega arith) Fails-once fails_second
