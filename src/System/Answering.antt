-- ===== src/System/Answering.antt =====
-- When `Test` returns for a Python tester.
use code_contests.Prelude.{◌≡◌, Bool, List, Text}
use code_contests.Status.{StatusOr, ok}
use code_contests.Absl.{Absl}
use code_contests.Results.{ExecutionResult}
use code_contests.Sandbox.{Os, SandboxWithOutputFds}
use code_contests.Sandbox.Ending.{Readable}
use code_contests.Runner.Task.{TestOptions}
use code_contests.Execution.Unblocked.{NeverStuck}
use code_contests.Host.{Host}
use code_contests.Launch.{World}
use code_contests.Python.{PyTesterSandboxer}
use code_contests.Python.Calls.{library}
use code_contests.System.{machine_of, packed, creation, Runs}

module _ (absl : Absl) (host : Host) (tester : PyTesterSandboxer) (options : TestOptions)
    (temp_path : Text) where
  -- The outputs of the sandbox that is made for the input in this world can be read to their ends.
  abbrev pub MakesReadable : Text → World (library host tester) → Type 0
  MakesReadable input w =
      (s : SandboxWithOutputFds) (state : (machine_of host).State) (os : Os)
      → creation absl host tester options temp_path input
          (packed absl host tester options temp_path w)
        ≡ (ok s, (state, os))
      → Readable absl s os

  module _ (Begins : World (library host tester) → Type 0) (inputs expected : List Text)
      (compare_outputs : Text → Text → Bool) where
    -- In a world in which a test may begin, RunCodeOnInput has a result for the input, and only one; and
    -- however its two reading threads are scheduled, they come to an end.
    abbrev pub Decided : Text → World (library host tester) → Type 0
    Decided input w' =
        (r : StatusOr ExecutionResult) × (os' : Os) × Runs absl host tester options temp_path input
          w' r os'
        × ((q : StatusOr ExecutionResult) (os'' : Os)
            → Runs absl host tester options temp_path input w' q os''
            → r ≡ q)
        × ((s : SandboxWithOutputFds) (state : (machine_of host).State) (os : Os)
            → creation absl host tester options temp_path input
                (packed absl host tester options temp_path w')
              ≡ (ok s, (state, os))
            → NeverStuck absl s os)
