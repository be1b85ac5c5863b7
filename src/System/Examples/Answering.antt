-- ===== src/System/Examples/Answering.antt =====
-- The same test with any input: its sandbox's outputs can be read.
use code_contests.Prelude.{some, [], ◌∷◌, Text}
use code_contests.Status.{StatusOr}
use code_contests.Absl.Examples.{plain_absl}
use code_contests.Sandbox.{Os, SandboxWithOutputFds, construct}
use code_contests.Runner.Task.{default_options}
use code_contests.Host.Examples.{host, tester, at_start}
use code_contests.System.{machine_of, packed, creation}
use code_contests.System.Examples.{temp_path, made}

-- Without an input there is no buffer.
abbrev made_on : Text → SandboxWithOutputFds
made_on [] = construct (some 6) (some 4) (some 5)
made_on (c ∷ cs) = made

abbrev launched_on : Text → StatusOr SandboxWithOutputFds × ((machine_of host).State × Os)
launched_on input =
    creation plain_absl host tester default_options temp_path input
      (packed plain_absl host tester default_options temp_path at_start)
