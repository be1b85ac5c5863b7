-- ===== src/Python/Examples/Compile.antt =====
-- A compilation whose compiler prints "hi" to both outputs.
use code_contests.Prelude.{
  [], false, ℕ, ◌+◌, ◌≡◌, ◌≢◌, refl, subst, none, some, Option, codes, arith,
}
use code_contests.Status.{StatusOr, ok}
use code_contests.Absl.Examples.{plain_absl}
use code_contests.Descriptors.{is_interruption, read_fd}
use code_contests.Results.{ExecutionResult, default_result, success, from_compilation}
use code_contests.Sandbox.{SandboxWithOutputFds, construct, stdout, stderr}
use code_contests.Sandbox.Ending.{Readable}
use code_contests.Runner.Task.{default_options}
use code_contests.Host.{Host}
use code_contests.Python.Causes.{not_started}
use code_contests.Python.Failing.{Failed, compile_code-Failed}
use code_contests.Host.Examples.{host, tester, at_start}
use code_contests.Launch.{World, create_sandbox_with_fds, provide_stdin, receive, finish}
use code_contests.Python.{
  py3_tester, find, replace_path, without_header, program_hash, execution, compilation,
}
use code_contests.Python.Calls.{library, create_compilation_sandbox, create_test_sandbox}
use code_contests.Python.Confinement.{Jailed, create_test_sandbox-Jailed}
use code_contests.Python.Action.{
  Result, value, fails, ◌>>=◌, on_sandbox, read_stdout, read_stderr, leave,
}
use code_contests.Python.Compile.{
  compile_code, copy_only, find_binary, with_hash, hash_if, run_compiler, compile_in,
}
use code_contests.Python.Compiled.{Compiled, compile_code-Compiled}
use code_contests.Python.Returning.{compile_code-Returns}
use code_contests.Python.Closing.{Ending, compile_code-balance}

abbrev compiled : ExecutionResult
compiled = record default_result {
  program_status = success;
  program_hash = 12;
  stdout = codes "hi";
  stderr = codes "hi";
  sandbox_result = codes "OK";
}

abbrev compilation_of : Option (Result ExecutionResult × World (library host tester))
compilation_of =
    compile_code plain_absl host tester (codes "pass") (codes "/tmp/1642000000000-17-40") 60
      at_start

abbrev result_of :
    Option (Result ExecutionResult × World (library host tester)) → Option (Result ExecutionResult)
result_of none = none
result_of (some (r, w)) = some r

abbrev world_of :
    Option (Result ExecutionResult × World (library host tester)) → World (library host tester)
world_of none = at_start
world_of (some (r, w)) = w

compiles : compilation_of ≡ some (value compiled, world_of compilation_of)
unfolding compile_code create_compilation_sandbox create_sandbox_with_fds provide_stdin receive
    finish compilation py3_tester construct compile_in run_compiler hash_if with_hash find_binary
    copy_only ◌>>=◌ on_sandbox read_stdout read_stderr leave stdout stderr is_interruption read_fd
    program_hash find replace_path without_header from_compilation
compiles = refl

abbrev creation : StatusOr SandboxWithOutputFds × World (library host tester)
creation = create_compilation_sandbox host tester 60 (codes "/tmp/1642000000000-17-40") at_start

compile_code-Compiled_example :
    (s : SandboxWithOutputFds) × (creation.0 ≡ ok s)
    × Compiled host tester plain_absl
        (codes "/tmp/1642000000000-17-40")
        s
        creation.1
        compiled
        (world_of compilation_of).state
compile_code-Compiled_example =
    compile_code-Compiled host tester plain_absl (codes "/tmp/1642000000000-17-40") (codes "pass")
      60 at_start (world_of compilation_of) compiled compiles

compile_code-balance_example :
    Ending host tester 4
      (compilation tester (codes "/tmp/1642000000000-17-40")).1
      at_start
      (value compiled, world_of compilation_of)
compile_code-balance_example =
    compile_code-balance host tester 4 plain_absl (codes "pass") (codes "/tmp/1642000000000-17-40")
      60 at_start (world_of compilation_of) (value compiled) compiles

abbrev created_from : ℕ → StatusOr SandboxWithOutputFds × World (library host tester)
created_from n =
    create_compilation_sandbox host tester 60 (codes "/tmp/1642000000000-17-40")
      (record at_start { state = n })

abbrev made_from : ℕ → SandboxWithOutputFds
made_from n = construct (some (n + 1 + 1 + 1)) (some (n + 1)) (some (n + 1 + 1))

creates_from : (n : ℕ) → (created_from n).0 ≡ ok (made_from n)
unfolding create_compilation_sandbox create_sandbox_with_fds provide_stdin receive finish
    compilation py3_tester construct
creates_from n = refl

ends_everywhere : (n d : ℕ) → read_fd plain_absl d ((created_from n).1.os.reads d) ≢ none
unfolding create_compilation_sandbox create_sandbox_with_fds provide_stdin receive finish
    compilation py3_tester construct read_fd
ends_everywhere n d e = cc

Readable-made : (n : ℕ) → Readable plain_absl (made_from n) (created_from n).1.os
unfolding construct
Readable-made n = record {
  apart = λ d p q. ground arith;
  ends_out = ends_everywhere n (n + 1);
  ends_err = ends_everywhere n (n + 1 + 1);
}

Readable-created :
    (s : SandboxWithOutputFds) (n : ℕ)
    → (created_from n).0 ≡ ok s
    → Readable plain_absl s (created_from n).1.os
Readable-created s n e =
    let made = creates_from n in
    let same : made_from n ≡ s = cc in
    subst (λ x. Readable plain_absl x (created_from n).1.os) same (Readable-made n)

compile_code-Returns_example :
    (r : Result ExecutionResult) × (w' : World (library host tester)) × (compilation_of
      ≡ some (r, w'))
compile_code-Returns_example =
    compile_code-Returns host tester plain_absl (codes "/tmp/1642000000000-17-40") (codes "pass") 60
      at_start Readable-created

abbrev test_creation : StatusOr SandboxWithOutputFds × World (library host tester)
test_creation =
    create_test_sandbox host tester (codes "17") default_options (codes "/tmp/1642000000000-17-40")
      at_start

creates_test : test_creation.0 ≡ ok (construct (some 7) (some 5) (some 6))
unfolding create_test_sandbox create_sandbox_with_fds provide_stdin receive finish execution
    py3_tester construct
creates_test = refl

create_test_sandbox-Jailed_example :
    Jailed host tester
      (execution tester (codes "/tmp/1642000000000-17-40")).0
      default_options
      (codes "/tmp/1642000000000-17-40")
      (construct (some 7) (some 5) (some 6))
create_test_sandbox-Jailed_example =
    create_test_sandbox-Jailed host tester (codes "17") default_options
      (codes "/tmp/1642000000000-17-40") at_start (construct (some 7) (some 5) (some 6))
      (omega arith) creates_test

-- The same host, on which no sandbox starts.
abbrev stuck : Host
stuck = record host { run_async = λ sandbox next. (false, next) }

abbrev stuck_at_start : World (library stuck tester)
stuck_at_start = record { state = 3; os = at_start.os; received = [] }

abbrev failure : Option (Result ExecutionResult × World (library stuck tester))
failure =
    compile_code plain_absl stuck tester (codes "pass") (codes "/tmp/1642000000000-17-40") 60
      stuck_at_start

abbrev world_after :
    Option (Result ExecutionResult × World (library stuck tester)) → World (library stuck tester)
world_after none = stuck_at_start
world_after (some (r, w)) = w

fails_to_start : failure ≡ some (fails not_started, world_after failure)
unfolding compile_code create_compilation_sandbox create_sandbox_with_fds provide_stdin receive
    finish compilation py3_tester construct compile_in run_compiler ◌>>=◌ on_sandbox leave
fails_to_start = refl

compile_code-Failed_example :
    Failed plain_absl stuck tester
      (codes "/tmp/1642000000000-17-40")
      (create_compilation_sandbox stuck tester 60 (codes "/tmp/1642000000000-17-40") stuck_at_start)
      not_started
compile_code-Failed_example =
    compile_code-Failed plain_absl stuck tester (codes "/tmp/1642000000000-17-40") (codes "pass") 60
      stuck_at_start (world_after failure) not_started fails_to_start
