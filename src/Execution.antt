-- ===== src/Execution.antt =====
-- `TesterSandboxer::RunCodeOnInput` of execution/tester_sandboxer.cc: a sandbox is made and started,
-- two threads read its outputs, and the result is put together.
pub mod Reading
pub mod Laws
pub mod Completed
pub mod Ends
pub mod Unblocked
pub mod Sequential
mod Examples
use code_contests.Prelude.{
  ℕ, ◌+◌, ◌-◌, ◌*◌, ◌≡◌, Bool, true, false, Option, none, some, List, [], ◌∷◌, Text, codes,
}
use code_contests.Prelude.Int.{sub_ℕ}
use code_contests.Status.{StatusOr, ok, err, Error, error, unknown, ◌>>=◌}
use code_contests.Absl.{Absl}
use code_contests.Sandbox.{Os, SandboxWithOutputFds, stdout, stderr, destroy}
use code_contests.Results.{ExecutionResult, SandboxResult, from_test}
use code_contests.Runner.Task.{TestOptions}
use code_contests.Pool.{Tasks, Pool, Reach, Joined}

-- A running sandbox, named by a number, and the clock, which does not go back; over a state of their
-- own.
pub record Machine : Type 1 where
  pub State : Type 0
  pub now : State → ℕ × State
  pub run_async : ℕ → State → Bool × State
  pub set_walltime_limit : ℕ → ℕ → State → State
  pub await_result : ℕ → State → SandboxResult × State

-- The two tasks of the pool.
pub data Reader : Type 0 where
  reads_stdout : Reader
  reads_stderr : Reader

-- What the readers share. The two results are those of a new StatusOr before they are assigned.
pub record Shared : Type 0 where
  pub object : SandboxWithOutputFds
  pub os : Os
  pub stdout_contents : StatusOr Text
  pub stderr_contents : StatusOr Text

abbrev pub unassigned : StatusOr Text
unassigned = error unknown []

abbrev pub before_reading : SandboxWithOutputFds → Os → Shared
before_reading s os = record {
  object = s;
  os = os;
  stdout_contents = unassigned;
  stderr_contents = unassigned;
}

module _ (absl : Absl) where
  -- The two lambdas.
  pub data Move (s : Shared) : Reader → Unit {0} → Shared → Option (Unit {0}) → Type 0 where
    has_read_stdout :
        {r : StatusOr Text} {object : SandboxWithOutputFds} {os : Os}
        → stdout absl s.object s.os ≡ some (r, object, os)
        → Move s reads_stdout tt (record s { object = object; os = os; stdout_contents = r }) none
    has_read_stderr :
        {r : StatusOr Text} {object : SandboxWithOutputFds} {os : Os}
        → stderr absl s.object s.os ≡ some (r, object, os)
        → Move s reads_stderr tt (record s { object = object; os = os; stderr_contents = r }) none

  abbrev pub readers : Tasks
  readers = record {
    Task = Reader;
    Local = Unit {0};
    Shared = Shared;
    begin = λ t. tt;
    Move = Move;
  }

-- What follows the pool: `result` is that of the sandbox.
unfoldable pub assemble : Shared → SandboxResult → ℕ → ℕ → StatusOr ExecutionResult
assemble s result start_time end_time = s.stdout_contents >>= λ out.
    s.stderr_contents >>= λ problems. ok (record (from_test result) {
      stdout = out;
      stderr = problems;
      execution_duration = sub_ℕ end_time start_time;
    })

-- `create_test_sandbox` is the virtual CreateTestSandbox for the input, the options and the path.
module _ (absl : Absl) (machine : Machine) (max_execution_duration : ℕ)
    (create_test_sandbox : machine.State × Os
      → StatusOr SandboxWithOutputFds × (machine.State × Os)) where
  open machine use {State, now, run_async, set_walltime_limit, await_result}

  abbrev pub started : ℕ → State → Bool
  started sandbox state = (run_async sandbox (now state).1).0

  -- The result for a sandbox that was started in `state`, when the outputs are read.
  abbrev pub completed : ℕ → State → Shared → StatusOr ExecutionResult
  completed sandbox state s =
      let (start_time, state₁) = now state in
      let (_, state₂) = run_async sandbox state₁ in
      let (result, state₃) =
        await_result sandbox (set_walltime_limit sandbox (max_execution_duration * 30) state₂) in
      assemble s result start_time (now state₃).0

  -- What RunCodeOnInput returns, and the descriptors after its object is destroyed.
  pub data Returns (w : State × Os) : StatusOr ExecutionResult → Os → Type 0 where
    not_created :
        {e : Error} {state : State} {os : Os}
        → create_test_sandbox w ≡ (err e, (state, os))
        → Returns w (err e) os
    not_started :
        {s : SandboxWithOutputFds} {state : State} {os : Os} {sandbox : ℕ}
        → create_test_sandbox w ≡ (ok s, (state, os))
        → s.sandbox ≡ some sandbox
        → started sandbox state ≡ false
        → Returns w (error unknown (codes "Failed to run sandbox on execution.")) (destroy s os)
    finished :
        {s : SandboxWithOutputFds} {state : State} {os : Os} {sandbox : ℕ} {p : Pool (readers absl)}
        → create_test_sandbox w ≡ (ok s, (state, os))
        → s.sandbox ≡ some sandbox
        → started sandbox state ≡ true
        → Reach (readers absl) 2 (reads_stdout ∷ reads_stderr ∷ []) (before_reading s os) p
        → Joined (readers absl) p
        → Returns w (completed sandbox state p.shared) (destroy p.shared.object p.shared.os)
