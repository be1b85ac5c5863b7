-- ===== src/System.antt =====
-- The whole of `Test` for a Python tester: `RunCodeOnInput` of execution/tester_sandboxer.cc in
-- `PyTesterSandboxer`'s sandboxes, as the runs of the test tasks.
pub mod Accounts
pub mod Verdicts
pub mod Isolation
pub mod Attempts
pub mod Whole
pub mod Answering
pub mod Compiling
pub mod Closing
mod Examples
use code_contests.Prelude.{ℕ, List, Text, Bool}
use code_contests.Status.{StatusOr, Error, ok, err}
use code_contests.Absl.{Absl}
use code_contests.Results.{ExecutionResult}
use code_contests.Sandbox.{Os, SandboxWithOutputFds}
use code_contests.Runner.Task.{Job, TestOptions}
use code_contests.Execution.{Machine, Returns}
use code_contests.Host.{Host}
use code_contests.Launch.{World}
use code_contests.Python.{PyTesterSandboxer}
use code_contests.Python.Calls.{library, create_test_sandbox}

-- The host as RunCodeOnInput sees it. The list records the received descriptors.
abbrev pub machine_of : Host → Machine
machine_of host = record {
  State = host.State × List ℕ;
  now = λ (state, received). let (t, state') = host.now state in (t, (state', received));
  run_async = λ sandbox (state, received).
      let (b, state') = host.run_async sandbox state in (b, (state', received));
  set_walltime_limit =
      λ sandbox limit (state, received). (host.set_walltime_limit sandbox limit state, received);
  await_result = λ sandbox (state, received).
      let (r, state') = host.await_result sandbox state in (r, (state', received));
}

module _ (absl : Absl) (host : Host) (tester : PyTesterSandboxer) (options : TestOptions)
    (temp_path : Text) where
  abbrev pub packed : World (library host tester) → (machine_of host).State × Os
  packed w = ((w.state, w.received), w.os)

  -- `CreateTestSandbox` for an input, over the state of the machine.
  abbrev pub creation :
      Text
      → (machine_of host).State × Os
      → StatusOr SandboxWithOutputFds × ((machine_of host).State × Os)
  creation input ((state, received), os) =
      let (r, w) =
        create_test_sandbox host tester input options temp_path
          (record { state = state; os = os; received = received }) in
      (r, packed w)

  -- `RunCodeOnInput` for an input, from one world.
  abbrev pub Runs : Text → World (library host tester) → StatusOr ExecutionResult → Os → Type 0
  Runs input w r os' =
      Returns absl (machine_of host) options.max_execution_duration (creation input) (packed w) r
        os'

  -- `Test` with this tester. A test may begin in any of the worlds that `Begins` names: what the
  -- other threads have done by then is not known.
  abbrev pub python_job :
      (World (library host tester) → Type 0) → List Text → List Text → (Text → Text → Bool) → Job
  python_job Begins inputs expected compare_outputs = record {
    absl = absl;
    options = options;
    inputs = inputs;
    expected = expected;
    compare_outputs = compare_outputs;
    Outcome =
        λ input r. (w : World (library host tester)) × Begins w × ((os' : Os) × Runs input w r os');
  }
