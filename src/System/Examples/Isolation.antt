-- ===== src/System/Examples/Isolation.antt =====
-- Two tests that one process makes in one millisecond.
use code_contests.Prelude.{inr, ℕ, ◌≡◌, ◌≢◌, refl, some, Text, codes, arith, ap}
use code_contests.Status.{ok}
use code_contests.Sandbox.{SandboxWithOutputFds, construct}
use code_contests.Runner.Task.{default_options}
use code_contests.Host.Examples.{host, tester, at_start}
use code_contests.Launch.{create_sandbox_with_fds, provide_stdin, receive, finish}
use code_contests.Python.{py3_tester, execution}
use code_contests.Python.Calls.{create_test_sandbox}
use code_contests.TempPath.Examples.{surroundings, constructs, constructs_again}
use code_contests.TempPath.Names.{decimal-PrintsNumbers}
use code_contests.TempPath.Separate.{key}
use code_contests.System.Isolation.{KeepsOut, python_sandboxes-KeepOut}

abbrev first_path : Text
first_path = codes "/tmp/1642000000000-17-40"

abbrev second_path : Text
second_path = codes "/tmp/1642000000000-17-41"

abbrev made : SandboxWithOutputFds
made = construct (some 7) (some 5) (some 6)

makes :
    (create_test_sandbox host tester (codes "17") default_options first_path at_start).0 ≡ ok made
unfolding create_test_sandbox create_sandbox_with_fds provide_stdin receive finish execution
    py3_tester construct
makes = refl

other_number : key surroundings 40 ≢ key surroundings 41
other_number e = absurd (omega (arith, ap (λ (k : ℕ × ℕ × ℕ). k.2) e))

python_sandboxes-KeepOut_example : KeepsOut host tester second_path made
python_sandboxes-KeepOut_example =
    python_sandboxes-KeepOut host tester surroundings surroundings decimal-PrintsNumbers
      decimal-PrintsNumbers 40 41 41 42 first_path second_path (codes "17") default_options 60
      at_start made constructs constructs_again other_number (omega arith) (inr makes)
