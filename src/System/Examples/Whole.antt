-- ===== src/System/Examples/Whole.antt =====
-- A test of a program that compiles, on one input, with the directory that it makes.
use code_contests.Prelude.{none, ℕ, ◌∷◌, ◌≡◌, refl, some, [], Text, codes, text_eq, arith}
use code_contests.Status.{StatusOr, ok}
use code_contests.Absl.Examples.{plain_absl}
use code_contests.Descriptors.{is_interruption, read_fd}
use code_contests.Results.{
  ExecutionResult, MultiTestResult, default_result, success, from_compilation,
}
use code_contests.Retry.{retry_if_fail}
use code_contests.Sandbox.{construct, stdout, stderr}
use code_contests.Runner.Task.{default_options, publish}
use code_contests.Runner.{begin_test, check_arguments, compiled, collect, Returns, tested}
use code_contests.Host.{Host}
use code_contests.Host.Examples.{host, tester, at_start}
use code_contests.Launch.{World, create_sandbox_with_fds, provide_stdin, receive, finish}
use code_contests.Python.{py3_tester, find, replace_path, without_header, program_hash, compilation}
use code_contests.Python.Calls.{library, create_compilation_sandbox}
use code_contests.Python.Action.{◌>>=◌, on_sandbox, read_stdout, read_stderr, leave}
use code_contests.Python.Compile.{
  compile_code, copy_only, find_binary, with_hash, hash_if, run_compiler, compile_in,
}
use code_contests.TempPath.Examples.{surroundings, constructs}
use code_contests.System.Examples.{temp_path, Begins, greeting, passed, reach_done, receives_apart}
use code_contests.System.Attempts.{Process, alive, dead, stuck, compile_at, pause_at, retried}
use code_contests.System.Whole.{Tests, tested_in, threw, Says, Tests-Says}

abbrev Place : Type 0
Place = World (library host tester)

abbrev program : Text
program = codes "pass"

abbrev wait : Place → Place
wait w = w

abbrev compile :
    ℕ
    → Process plain_absl host tester program wait temp_path
    → StatusOr ExecutionResult × Process plain_absl host tester program wait temp_path
compile = compile_at plain_absl host tester program wait temp_path

abbrev waits :
    Process plain_absl host tester program wait temp_path
    → Process plain_absl host tester program wait temp_path
waits = pause_at plain_absl host tester program wait temp_path

abbrev attempts_at :
    (path : Text)
    → Place
    → StatusOr ExecutionResult × Process plain_absl host tester program wait path
attempts_at path w = retried plain_absl host tester program wait path w

abbrev hashed : ExecutionResult
hashed = record default_result {
  program_status = success;
  program_hash = 12;
  stdout = codes "hi";
  stderr = codes "hi";
  sandbox_result = codes "OK";
}

begins :
    begin_test compile waits greeting (alive at_start)
    ≡ (compiled hashed, (begin_test compile waits greeting (alive at_start)).1)
unfolding begin_test check_arguments retry_if_fail compile_code create_compilation_sandbox
    create_sandbox_with_fds provide_stdin receive finish compilation py3_tester construct compile_in
    run_compiler hash_if with_hash find_binary copy_only ◌>>=◌ on_sandbox read_stdout read_stderr
    leave stdout stderr is_interruption read_fd program_hash find replace_path without_header
    from_compilation
begins = refl

abbrev outcome : MultiTestResult
outcome = record { compilation_result = hashed; test_results = passed ∷ [] }

Returns-outcome : Returns compile waits greeting (alive at_start) (ok outcome)
unfolding collect publish text_eq
Returns-outcome = tested begins reach_done (record { shut = refl; all_exited = (refl, tt) })

abbrev world_of : Process plain_absl host tester program wait temp_path → Place
world_of (alive w) = w
world_of dead = at_start
world_of stuck = at_start

abbrev after : Place
after = world_of (attempts_at temp_path at_start).1

comes_back : (attempts_at temp_path at_start).1 ≡ alive after
unfolding retry_if_fail compile_code create_compilation_sandbox create_sandbox_with_fds
    provide_stdin receive finish compilation py3_tester construct compile_in run_compiler hash_if
    with_hash find_binary copy_only ◌>>=◌ on_sandbox read_stdout read_stderr leave stdout stderr
    is_interruption read_fd program_hash find replace_path without_header from_compilation
comes_back = refl

Tests-outcome :
    Tests plain_absl host tester surroundings program default_options Begins
      (codes "17" ∷ [])
      (codes "hi" ∷ [])
      text_eq
      wait
      40
      at_start
      (some (ok outcome))
unfolding check_arguments
Tests-outcome = tested_in temp_path after refl constructs comes_back Returns-outcome

Tests-Says_example :
    Says plain_absl host tester surroundings program default_options Begins
      (codes "17" ∷ [])
      (codes "hi" ∷ [])
      text_eq
      wait
      40
      at_start
      (some (ok outcome))
Tests-Says_example =
    Tests-Says plain_absl host tester surroundings program default_options Begins (codes "17" ∷ [])
      (codes "hi" ∷ []) text_eq wait (omega arith) (omega arith) receives_apart 40 at_start
      (some (ok outcome)) Tests-outcome

-- The same host, on which the compiled file does not hold its path: the hash of the program throws.
abbrev pathless : Host
pathless = record host { contents = λ path next. [] }

abbrev pathless_at_start : World (library pathless tester)
pathless_at_start = record { state = 3; os = at_start.os; received = [] }

abbrev no_wait : World (library pathless tester) → World (library pathless tester)
no_wait w = w

throws_at :
    (retried plain_absl pathless tester program no_wait temp_path pathless_at_start).1 ≡ dead
unfolding retry_if_fail compile_code create_compilation_sandbox create_sandbox_with_fds
    provide_stdin receive finish compilation py3_tester construct compile_in run_compiler hash_if
    with_hash find_binary copy_only ◌>>=◌ on_sandbox read_stdout read_stderr leave stdout stderr
    is_interruption read_fd program_hash find replace_path without_header from_compilation
throws_at = refl

Tests-ended :
    Tests plain_absl pathless tester surroundings program default_options
      (λ w. w ≡ pathless_at_start)
      (codes "17" ∷ [])
      (codes "hi" ∷ [])
      text_eq
      no_wait
      40
      pathless_at_start
      none
unfolding check_arguments
Tests-ended = threw temp_path refl constructs throws_at
