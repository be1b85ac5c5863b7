-- ===== src/System/Examples/Verdicts.antt =====
-- The same test with the comparison that `Test` has by default.
use code_contests.Prelude.{arith, ◌≡◌, refl, true, [], ◌∷◌, codes}
use code_contests.Status.{ok}
use code_contests.Absl.Examples.{plain_absl}
use code_contests.Outputs.{outputs_match, split_and_lowercase, texts_eq}
use code_contests.Outputs.Examples.Functions.{split, strings, numbers}
use code_contests.Retry.{retry_if_fail}
use code_contests.Sandbox.{destroy}
use code_contests.Pool.{
  Pool, Worker, Reach, started, step, schedules, closes, takes, stops, works, returns,
}
use code_contests.Runner.Task.{
  Job, default_options, runs, sees_none, breaks, publishes, tasks, publish,
}
use code_contests.Runner.{
  begin_test, check_arguments, compiled, indices, fresh, collect, Returns, tested,
}
use code_contests.Host.Examples.{host, tester, at_start}
use code_contests.System.Verdicts.{compared, Judges, python_verdicts}
use code_contests.System.Examples.{
  temp_path, Begins, compile, wait, printed, passed, result, after_err, Runs-printed,
  receives_apart,
}

abbrev greeting : Job
greeting =
    compared plain_absl host tester default_options temp_path Begins (codes "17" ∷ [])
      (codes "hi" ∷ []) strings numbers

begins : begin_test compile wait greeting tt ≡ (compiled printed, tt)
unfolding begin_test check_arguments retry_if_fail
begins = refl

abbrev done : Pool (tasks greeting)
done = record {
  backlog = [];
  closed = true;
  queue = [];
  workers = Worker.exited ∷ [];
  shared = publish greeting 0 (ok printed) (fresh 1);
  returned = 0 ∷ [];
}

reach_done : Reach (tasks greeting) 1 (indices 0 1) (fresh 1) done
unfolding indices
reach_done =
    let ready = step (step started (schedules refl)) (closes refl refl) in
    let called = step (step ready (takes 0 refl refl)) (works 0 refl (sees_none refl)) in
    let ran =
      step called
        (works 0 refl (runs (at_start, refl, (destroy after_err.0 after_err.1, Runs-printed)))) in
    step (step (step ran (works 0 refl (breaks refl))) (returns 0 refl (publishes refl)))
      (stops 0 refl refl)

Returns-result : Returns compile wait greeting tt (ok result)
unfolding collect publish outputs_match split_and_lowercase texts_eq split
Returns-result = tested begins reach_done (record { shut = refl; all_exited = (refl, tt) })

python_verdicts_example :
    Judges plain_absl host tester default_options temp_path Begins
      (codes "17" ∷ [])
      (codes "hi" ∷ [])
      strings
      numbers
      0
      true
python_verdicts_example =
    python_verdicts plain_absl host tester default_options temp_path Begins (codes "17" ∷ [])
      (codes "hi" ∷ []) strings numbers compile wait tt result 0 passed true (omega arith)
      (omega arith) receives_apart refl Returns-result refl refl refl
