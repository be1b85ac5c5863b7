-- ===== src/Execution/Examples/Sequential.antt =====
-- The run whose second output is read first, against the function that reads in order.
use code_contests.Prelude.{◌≡◌, ◌↔◌, some}
use code_contests.Absl.Examples.{plain_absl}
use code_contests.Sandbox.{destroy}
use code_contests.Execution.{Returns, completed}
use code_contests.Execution.Sequential.{run_code, run_code_iff}
use code_contests.Execution.Examples.{
  machine, create, fresh, last, both_read, after_both, made-Apart,
}

run_code_iff_example :
    Returns plain_absl machine 10 create
      (0, fresh)
      (completed plain_absl machine 10 create 1 0 last.shared)
      (destroy both_read after_both)
    ↔ (run_code plain_absl machine 10 create (0, fresh)
        ≡ some
            (completed plain_absl machine 10 create 1 0 last.shared, destroy both_read after_both))
run_code_iff_example =
    run_code_iff plain_absl machine 10 create (0, fresh)
      (completed plain_absl machine 10 create 1 0 last.shared) (destroy both_read after_both)
      made-Apart
