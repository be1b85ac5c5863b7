-- ===== src/Runner/Examples.antt =====
-- A test of the identity program, with one thread and early stopping: the first of two expected
-- outputs is wrong.
mod Loop
mod Determined
use code_contests.Prelude.{
  ℕ, ◌+◌, ◌*◌, ◌≤◌, ◌<◌, true, false, ◌≡◌, refl, ◌⊎◌, ◌↔◌, ◌≢◌, none, some, [], ◌∷◌, length,
  replicate, text_eq, Text, codes, arith,
}
use code_contests.Status.{StatusOr, ok, err, ok_status, ErrorCode, Error}
use code_contests.Absl.Examples.{plain_absl}
use code_contests.Retry.{retry_if_fail}
use code_contests.Results.{ExecutionResult, MultiTestResult, default_result, success}
use code_contests.Pool.{
  Pool, Worker, Reach, started, step, schedules, closes, takes, stops, works, returns, Joined,
  start_workers,
}
use code_contests.Pool.Progress.{stay}
use code_contests.Runner.Task.{
  Job, default_options, Shared, leaves, sees_stop, sees_none, runs, breaks, skips, publishes, tasks,
  text_at, publish,
}
use code_contests.Runner.Correctness.{Accounted, test_accounts, test_error, test_without_threads}
use code_contests.Runner.Beginning.{check_arguments_iff}
use code_contests.Runner.Termination.{Answers, EndsAlways, test-EndsAlways, test_steps_le}
use code_contests.Runner.Retrying.{Leads, task_retries}
use code_contests.Runner.Run.{input_count, all_tasks}
use code_contests.Runner.{
  check_arguments, begin_test, compiled, indices, fresh, collect, Returns, early, tested,
  max_compilation_duration,
}

abbrev ran : Text → ExecutionResult
ran output = record default_result { program_status = success; stdout = output }

abbrev echo : Job
echo = record {
  absl = plain_absl;
  options = record default_options { stop_on_first_failure = true };
  inputs = codes "a" ∷ codes "b" ∷ [];
  expected = codes "x" ∷ codes "b" ∷ [];
  compare_outputs = text_eq;
  Outcome = λ input r. r ≡ ok (ran input);
}

-- The compiler always succeeds.
abbrev compile : ℕ → Unit {0} → StatusOr ExecutionResult × Unit {0}
compile limit w = (ok (ran []), w)

abbrev wait : Unit {0} → Unit {0}
wait w = w

begins : begin_test compile wait echo tt ≡ (compiled (ran []), tt)
unfolding begin_test check_arguments retry_if_fail
begins = refl

abbrev Reached : Pool (tasks echo) → Type 0
Reached = Reach (tasks echo) 1 (indices 0 2) (fresh 2)

-- The variables behind the first test.
abbrev failed_first : Shared
failed_first = record {
  should_stop = true;
  overall_status = ok_status;
  test_results =
      record default_result { program_status = success; stdout = codes "a"; passed = some false }
      ∷ default_result
      ∷ [];
}

publishes_first : publish echo 0 (ok (ran (codes "a"))) (fresh 2) ≡ failed_first
unfolding publish text_eq
publishes_first = refl

abbrev last : Pool (tasks echo)
last = record {
  backlog = [];
  closed = true;
  queue = [];
  workers = Worker.exited ∷ [];
  shared = publish echo 0 (ok (ran (codes "a"))) (fresh 2);
  returned = 1 ∷ 0 ∷ [];
}

abbrev ready : Pool (tasks echo)
ready = record {
  backlog = [];
  closed = true;
  queue = some 0 ∷ some 1 ∷ none ∷ [];
  workers = Worker.waiting ∷ [];
  shared = fresh 2;
  returned = [];
}

reach_ready : Reached ready
unfolding indices
reach_ready = step (step (step started (schedules refl)) (schedules refl)) (closes refl refl)

abbrev first_done : Pool (tasks echo)
first_done = record ready {
  queue = some 1 ∷ none ∷ [];
  shared = publish echo 0 (ok (ran (codes "a"))) (fresh 2);
  returned = 0 ∷ [];
}

reach_first : Reached first_done
reach_first =
    step
      (step
        (step (step (step reach_ready (takes 0 refl refl)) (works 0 refl (sees_none refl)))
          (works 0 refl (runs refl)))
        (works 0 refl (breaks refl)))
      (returns 0 refl (publishes refl))

reach_last : Reached last
unfolding publish text_eq
reach_last =
    step
      (step
        (step (step (step reach_first (takes 0 refl refl)) (works 0 refl (sees_stop refl)))
          (works 0 refl (breaks refl)))
        (returns 0 refl (skips refl)))
      (stops 0 refl refl)

Joined-last : Joined (tasks echo) last
Joined-last = record { shut = refl; all_exited = (refl, tt) }

abbrev result : MultiTestResult
result = record { compilation_result = ran []; test_results = failed_first.test_results }

Returns-result : Returns compile wait echo tt (ok result)
unfolding collect publish text_eq
Returns-result = tested begins reach_last Joined-last

test_accounts_example :
    (length result.test_results ≡ input_count echo)
    × ((i : ℕ) → i < input_count echo → Accounted echo result.test_results i)
test_accounts_example = test_accounts compile wait echo tt result (omega arith) Returns-result refl

-- One expected output for two inputs.
abbrev uneven : Job
uneven = record echo { expected = codes "x" ∷ [] }

abbrev refusal : Error
refusal = record {
  code = ErrorCode.invalid_argument;
  message = codes "Inputs and expected outputs must have the same length. Actual lengths: $0 v $1.";
}

Returns-refusal : Returns compile wait uneven tt (err refusal)
unfolding begin_test check_arguments
Returns-refusal = early refl

test_error_example :
    (check_arguments uneven ≡ err refusal)
    ⊎ ((retry_if_fail (compile max_compilation_duration) wait tt).0 ≡ err refusal)
    ⊎ ((i : ℕ) × (i < input_count uneven) × uneven.Outcome (text_at uneven.inputs i) (err refusal))
test_error_example = test_error compile wait uneven tt refusal Returns-refusal

abbrev threadless : Job
threadless = record echo { options = record default_options { num_threads = 0 } }

begins_threadless : begin_test compile wait threadless tt ≡ (compiled (ran []), tt)
unfolding begin_test check_arguments retry_if_fail
begins_threadless = refl

answers : Answers threadless
answers i = (ok (ran (text_at threadless.inputs i)), refl)

test-EndsAlways_example :
    EndsAlways threadless compile wait tt (begin_test compile wait threadless tt).0
test-EndsAlways_example = test-EndsAlways threadless compile wait tt answers

Returns-unrun : Returns compile wait threadless tt (collect (ran []) (fresh 2))
unfolding indices
Returns-unrun =
    tested begins_threadless
      (step (step (step started (schedules refl)) (schedules refl)) (closes refl refl))
      (record { shut = refl; all_exited = tt })

test_without_threads_example :
    collect (ran []) (fresh 2)
    ≡ ok (record {
      compilation_result = ran [];
      test_results = replicate (input_count threadless) default_result;
    })
test_without_threads_example =
    test_without_threads compile wait threadless tt (collect (ran []) (fresh 2)) (ran []) tt refl
      begins_threadless Returns-unrun

no_steps_yet : 0 ≤ 17 * input_count echo + 2 * 1 + 1
no_steps_yet = test_steps_le echo 1 0 (start_workers (tasks echo) 1 (all_tasks echo) (fresh 2)) stay
