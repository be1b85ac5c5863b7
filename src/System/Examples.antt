-- ===== src/System/Examples.antt =====
-- One test of a program that prints "hi", which is what is expected.
mod Verdicts
mod Isolation
mod Whole
mod Answering
use code_contests.Prelude.{
  ◌⊎◌, arith, ℕ, ◌<◌, ◌≡◌, ◌≢◌, refl, sym, ap, subst, true, none, some, Option, [], ◌∷◌, length,
  Text, codes, text_eq,
}
use code_contests.Status.{StatusOr, Error, err, ok}
use code_contests.Absl.Examples.{plain_absl}
use code_contests.Descriptors.{is_interruption, read_fd}
use code_contests.Results.{ExecutionResult, MultiTestResult, default_result, success, from_test}
use code_contests.Retry.{retry_if_fail}
use code_contests.Sandbox.{Os, SandboxWithOutputFds, construct, stdout, stderr, destroy}
use code_contests.Sandbox.Ending.{Readable}
use code_contests.Pool.{
  Pool, Worker, Reach, started, step, schedules, closes, takes, stops, works, returns,
}
use code_contests.Runner.Task.{
  Job, TestOptions, default_options, runs, sees_none, breaks, publishes, tasks, publish,
}
use code_contests.Runner.Run.{input_count}
use code_contests.Runner.{
  begin_test, check_arguments, compiled, indices, fresh, collect, Returns, tested,
}
use code_contests.Runner.Task
use code_contests.Execution.{
  Shared, reads_stdout, reads_stderr, before_reading, readers, has_read_stdout, has_read_stderr,
  finished, completed, assemble,
}
use code_contests.Host.Examples.{host, tester, at_start}
use code_contests.Launch.{World, create_sandbox_with_fds, provide_stdin, receive, finish}
use code_contests.Launch.Outputs.{ReceivesApart}
use code_contests.Python.{py3_tester, execution}
use code_contests.Python.Calls.{library, create_test_sandbox}
use code_contests.System.{machine_of, packed, creation, Runs, python_job}
use code_contests.Launch.Balance.{Balance, Lost}
use code_contests.System.Closing.{world_after, run-Balance}
use code_contests.System.Accounts.{Explained, python_accounts}

abbrev pub temp_path : Text
temp_path = codes "/tmp/1642000000000-17-40"

-- Every test begins in the same world.
abbrev pub Begins : World (library host tester) → Type 0
Begins w = w ≡ at_start

abbrev pub greeting : Job
greeting =
    python_job plain_absl host tester default_options temp_path Begins (codes "17" ∷ [])
      (codes "hi" ∷ []) text_eq

abbrev pub made : SandboxWithOutputFds
made = construct (some 7) (some 5) (some 6)

abbrev launched : StatusOr SandboxWithOutputFds × ((machine_of host).State × Os)
launched =
    creation plain_absl host tester default_options temp_path (codes "17")
      (packed plain_absl host tester default_options temp_path at_start)

launches : launched ≡ (ok made, launched.1)
unfolding create_test_sandbox create_sandbox_with_fds provide_stdin receive finish execution
    py3_tester construct
launches = refl

abbrev read_of : Option (StatusOr Text × SandboxWithOutputFds × Os) → SandboxWithOutputFds × Os
read_of none = (made, launched.1.1)
read_of (some (r, s, os)) = (s, os)

abbrev after_out : SandboxWithOutputFds × Os
after_out = read_of (stdout plain_absl made launched.1.1)

abbrev after_err : SandboxWithOutputFds × Os
after_err = read_of (stderr plain_absl after_out.0 after_out.1)

reads_hi : stdout plain_absl made launched.1.1 ≡ some (ok (codes "hi"), after_out.0, after_out.1)
unfolding create_test_sandbox create_sandbox_with_fds provide_stdin receive finish execution
    py3_tester construct stdout is_interruption read_fd
reads_hi = refl

reads_hi_again :
    stderr plain_absl after_out.0 after_out.1 ≡ some (ok (codes "hi"), after_err.0, after_err.1)
unfolding create_test_sandbox create_sandbox_with_fds provide_stdin receive finish execution
    py3_tester construct stdout stderr is_interruption read_fd
reads_hi_again = refl

abbrev printed : ExecutionResult
printed = record default_result {
  program_status = success;
  stdout = codes "hi";
  stderr = codes "hi";
  sandbox_result = codes "OK";
}

abbrev read_shared : Shared
read_shared = record {
  object = after_err.0;
  os = after_err.1;
  stdout_contents = ok (codes "hi");
  stderr_contents = ok (codes "hi");
}

abbrev read_pool : Pool (readers plain_absl)
read_pool = record {
  backlog = [];
  closed = true;
  queue = [];
  workers = Worker.exited ∷ Worker.exited ∷ [];
  shared = read_shared;
  returned = reads_stderr ∷ reads_stdout ∷ [];
}

reach_read :
    Reach
      (readers plain_absl)
      2
      (reads_stdout ∷ reads_stderr ∷ [])
      (before_reading made launched.1.1)
      read_pool
reach_read =
    let scheduled =
      step (step (step started (schedules refl)) (schedules refl)) (closes refl refl) in
    let taken = step (step scheduled (takes 0 refl refl)) (takes 1 refl refl) in
    let read =
      step (step taken (returns 0 refl (has_read_stdout reads_hi)))
        (returns 1 refl (has_read_stderr reads_hi_again)) in
    step (step read (stops 0 refl refl)) (stops 1 refl refl)

abbrev completion : StatusOr ExecutionResult
completion =
    completed plain_absl (machine_of host) default_options.max_execution_duration
      (creation plain_absl host tester default_options temp_path (codes "17")) 7 launched.1.0
      read_shared

completion_is : completion ≡ ok printed
unfolding assemble from_test
completion_is = refl

made_is : made.sandbox ≡ some 7
unfolding construct
made_is = refl

Runs-printed :
    Runs plain_absl host tester default_options temp_path
      (codes "17")
      at_start
      (ok printed)
      (destroy after_err.0 after_err.1)
Runs-printed =
    subst
      (λ r.
        Runs plain_absl host tester default_options temp_path (codes "17") at_start r
          (destroy after_err.0 after_err.1))
      completion_is
      (finished launches made_is refl reach_read
        (record { shut = refl; all_exited = (refl, (refl, tt)) }))

-- The compiler always succeeds.
abbrev pub compile : ℕ → Unit {0} → StatusOr ExecutionResult × Unit {0}
compile limit w = (ok printed, w)

abbrev pub wait : Unit {0} → Unit {0}
wait w = w

begins : begin_test compile wait greeting tt ≡ (compiled printed, tt)
unfolding begin_test check_arguments retry_if_fail
begins = refl

abbrev published : Task.Shared
published = publish greeting 0 (ok printed) (fresh 1)

abbrev done : Pool (tasks greeting)
done = record {
  backlog = [];
  closed = true;
  queue = [];
  workers = Worker.exited ∷ [];
  shared = published;
  returned = 0 ∷ [];
}

reach_done : Reach (tasks greeting) 1 (indices 0 1) (fresh 1) done
unfolding indices
reach_done =
    let ready = step (step started (schedules refl)) (closes refl refl) in
    let called = step (step ready (takes 0 refl refl)) (works 0 refl (sees_none refl)) in
    let ran =
      step called
        (works 0 refl (runs (at_start, refl, (destroy after_err.0 after_err.1, Runs-printed)))) in
    step (step (step ran (works 0 refl (breaks refl))) (returns 0 refl (publishes refl)))
      (stops 0 refl refl)

abbrev passed : ExecutionResult
passed = record printed { passed = some true }

abbrev result : MultiTestResult
result = record { compilation_result = printed; test_results = passed ∷ [] }

Returns-result : Returns compile wait greeting tt (ok result)
unfolding collect publish text_eq
Returns-result = tested begins reach_done (record { shut = refl; all_exited = (refl, tt) })

receives_apart : ReceivesApart (library host tester)
receives_apart n e = omega (arith, e)

python_accounts_example :
    (length result.test_results ≡ input_count greeting)
    × ((i : ℕ)
        → i < input_count greeting
        → Explained plain_absl host tester default_options temp_path Begins
            (codes "17" ∷ [])
            (codes "hi" ∷ [])
            text_eq
            result.test_results
            i)
python_accounts_example =
    python_accounts plain_absl host tester default_options temp_path Begins (codes "17" ∷ [])
      (codes "hi" ∷ []) text_eq compile wait tt result (omega arith) (omega arith) receives_apart
      Returns-result refl

run-Balance_example :
    Balance
      (library host tester)
      5
      at_start
      (world_after plain_absl host tester default_options temp_path
        (codes "17")
        at_start
        (destroy after_err.0 after_err.1))
      0
    ⊎ ((y : Error) × (ok printed ≡ err y)
        × Lost (library host tester) 5 y (execution tester temp_path).1 at_start (
            world_after plain_absl host tester default_options temp_path
              (codes "17")
              at_start
              (destroy after_err.0 after_err.1)))
run-Balance_example =
    run-Balance plain_absl host tester default_options temp_path 5 (codes "17") at_start
      (ok printed) (destroy after_err.0 after_err.1) Runs-printed
