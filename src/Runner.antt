-- ===== src/Runner.antt =====
-- `TesterSandboxer::Test` of execution/tester_sandboxer.cc: the checks of its arguments, the
-- compilation, and the tests on a thread pool. The methods that a subclass implements and
-- `RunCodeOnInput` are parameters.
pub mod Task
pub mod Publishing
pub mod Tracking
pub mod Run
pub mod Beginning
pub mod Correctness
pub mod Termination
pub mod Retrying
pub mod Compiling
pub mod Alone
pub mod Loop
pub mod Determined
pub mod Weights
pub mod Stopping
mod Examples
use code_contests.Prelude.{
  ℕ, zero, suc, ◌+◌, ◌*◌, ◌^◌, Bool, true, false, not, ◌&&◌, ◌||◌, ◌≡◌, Option, none, some, List,
  [], ◌∷◌, length, replicate, ◌==◌, if◌then◌else◌, Text, codes,
}
use code_contests.Status.{
  StatusOr, Status, ok, err, ok_status, error, invalid_argument, ◌>>=◌, ◌>>◌,
}
use code_contests.Absl.{Absl}
use code_contests.Retry.{retry_if_fail}
use code_contests.Results.{ExecutionResult, MultiTestResult, default_result, is_success}
use code_contests.Pool.{Pool, Reach, Joined}
use Task.{Job, Shared, checking_outputs, tasks}

-- kMaxCompilationDuration, in nanoseconds
abbrev pub max_compilation_duration : ℕ
max_compilation_duration = 60 * 10 ^ 9

-- The guards at the head of `Test`.
unfoldable pub check_arguments : Job → Status
check_arguments j =
    if checking_outputs j && not (length j.inputs == length j.expected)
    then error invalid_argument (
        j.absl.substitute
          (codes "Inputs and expected outputs must have the same length. Actual lengths: $0 v $1.")
          (length j.inputs ∷ length j.expected ∷ []))
    else if j.options.stop_on_first_failure && not (checking_outputs j)
    then error invalid_argument
        (codes "stop_on_first_failure does not work if expected outputs are not provided.")
    else ok_status

-- `Test` up to the thread pool: it has returned, or the compilation succeeded with this result.
pub data Begun : Type 0 where
  returned : StatusOr MultiTestResult → Begun
  compiled : ExecutionResult → Begun

-- `if (compilation_result.program_status != kSuccess) return multi_test_result;`
abbrev pub after_compilation : StatusOr ExecutionResult → Begun
after_compilation (err e) = returned (err e)
after_compilation (ok c) =
    if is_success c.program_status
    then compiled c
    else returned (ok (record { compilation_result = c; test_results = [] }))

-- `CompileCode` with the code and the temporary path given, at a time limit; `pause` is the pause
-- between two attempts.
module _ {W : Type 0} (compile_code : ℕ → W → StatusOr ExecutionResult × W) (pause : W → W)
    (j : Job) where
  unfoldable pub begin_test : W → Begun × W
  begin_test w = elim (check_arguments j) [
    | err e ↦ (returned (err e), w)
    | ok u ↦
        let (r, w') = retry_if_fail (compile_code max_compilation_duration) pause w in
        (after_compilation r, w')
  ]

-- `for (int i = 0; i < test_inputs.size(); ++i)`: the indices from `i` on, `n` of them.
unfoldable pub indices : ℕ → ℕ → List ℕ
indices i zero = []
indices i (suc n) = i ∷ indices (suc i) n

-- The variables that the tasks share, before the first of them.
abbrev pub fresh : ℕ → Shared
fresh n = record {
  should_stop = false;
  overall_status = ok_status;
  test_results = replicate n default_result;
}

-- `RETURN_IF_ERROR(overall_status); return multi_test_result;`
unfoldable pub collect : ExecutionResult → Shared → StatusOr MultiTestResult
collect c s =
    s.overall_status >> ok (record { compilation_result = c; test_results = s.test_results })

module _ {W : Type 0} (compile_code : ℕ → W → StatusOr ExecutionResult × W) (pause : W → W)
    (j : Job) (w : W) where
  -- What `Test` can return from the world `w`.
  pub data Returns : StatusOr MultiTestResult → Type 1 where
    early :
        {r : StatusOr MultiTestResult} {w' : W}
        → begin_test compile_code pause j w ≡ (returned r, w')
        → Returns r
    tested :
        {c : ExecutionResult} {w' : W} {p : Pool (tasks j)}
        → begin_test compile_code pause j w ≡ (compiled c, w')
        → Reach
            (tasks j)
            j.options.num_threads
            (indices 0 (length j.inputs))
            (fresh (length j.inputs))
            p
        → Joined (tasks j) p
        → Returns (collect c p.shared)
