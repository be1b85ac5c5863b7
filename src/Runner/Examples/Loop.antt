-- ===== src/Runner/Examples/Loop.antt =====
-- The loop of a test with one thread that stops at its first failure, and how many fail.
use code_contests.Prelude.{◌↔◌, ◌≤◌, refl, [], total}
use code_contests.Status.{ok}
use code_contests.Runner.Loop.Allows.{Loops, test-Loops_iff}
use code_contests.Runner.{Returns}
use code_contests.Runner.Weights.{failing}
use code_contests.Runner.Stopping.{total-failing_le}
use code_contests.Runner.Examples.{echo, compile, wait, ran, begins, result, Returns-result}

test-Loops_iff_example :
    Returns compile wait echo tt (ok result) ↔ Loops compile wait echo tt (ran []) (ok result)
test-Loops_iff_example = test-Loops_iff compile wait echo tt (ok result) (ran []) tt refl begins

total-failing_le_example : total failing result.test_results ≤ echo.options.num_threads
total-failing_le_example = total-failing_le compile wait echo tt result refl Returns-result
