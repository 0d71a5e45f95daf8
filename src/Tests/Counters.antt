-- ===== src/Tests/Counters.antt =====
-- The counter store, on a disk of two files.
use claas_rollant.Prelude.{◌≡◌, ◌≢◌, ◌⊎◌, refl, true, false, ok, is_ok, ◌≤◌, arith}
use claas_rollant.Counter.Store.{CounterStore, persist, load}
use claas_rollant.Counter.Durability.{persist_atomic, load-persist, run_steps, steps}
use claas_rollant.Tests.Data.{mem_fs, disk}

-- One bale more than on the disk.
abbrev grown : CounterStore mem_fs
grown = record { path = true; counters = record { session = 4; total = 42 } }

apart : true ≢ false
apart = ground arith

-- The power fails after the temporary file is written.
persist_atomic_example :
    let d' = (run_steps mem_fs grown apart 3 (steps mem_fs grown apart) disk).0 in
    ((load mem_fs true d' ≡ load mem_fs true disk) ⊎ (load mem_fs true d' ≡ ok grown))
    × (5 ≤ 3
        → run_steps mem_fs grown apart 3 (steps mem_fs grown apart) disk
          ≡ persist mem_fs grown disk)
persist_atomic_example = persist_atomic mem_fs grown apart 3 disk (omega arith)

persist-ok : is_ok (persist mem_fs grown disk).1 ≡ true
unfolding persist
persist-ok = refl

load-persist_example : load mem_fs true (persist mem_fs grown disk).0 ≡ ok grown
load-persist_example = load-persist mem_fs grown apart disk (omega arith) persist-ok
