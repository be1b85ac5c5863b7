-- ===== src/System/Compiling.antt =====
-- Where the compilation result of a Python test run comes from.
use code_contests.Prelude.{◌≡◌, some, Text}
use code_contests.Status.{ok}
use code_contests.Absl.{Absl}
use code_contests.Results.{ExecutionResult}
use code_contests.Sandbox.{SandboxWithOutputFds}
use code_contests.Runner.Task.{default_options}
use code_contests.Runner.{max_compilation_duration}
use code_contests.Host.{Host}
use code_contests.Launch.{World}
use code_contests.Python.{PyTesterSandboxer, in_directory, code_file, source_text, compilation}
use code_contests.Python.Calls.{library, create_compilation_sandbox}
use code_contests.Python.Confinement.{Jailed, create_compilation_sandbox-Jailed}
use code_contests.Python.Action.{value}
use code_contests.Python.Compile.{compile_code}
use code_contests.Python.Compiled.{Compiled, compile_code-Compiled}

module _ (absl : Absl) (host : Host) (tester : PyTesterSandboxer) (code temp_path : Text) where
  -- The world in which the compilation's sandbox is made: the source file is written.
  abbrev pub written : World (library host tester) → World (library host tester)
  written w = record w {
    state = host.write_file (in_directory temp_path code_file) (source_text tester code) w.state;
  }

  -- `x` is the result of the tester's compiler on the program, in a confined sandbox, from a world in
  -- which an attempt at CompileCode begins, which gives it: this world fixes the sandbox and what comes
  -- of it.
  abbrev pub JailedCompilation : (World (library host tester) → Type 0) → ExecutionResult → Type 0
  JailedCompilation Enters x =
      (w : World (library host tester)) × Enters w
      × (w' : World (library host tester)) × (compile_code absl host tester code temp_path
            max_compilation_duration w
          ≡ some (value x, w'))
      × (s : SandboxWithOutputFds) × ((create_compilation_sandbox host tester
            max_compilation_duration temp_path (written w)).0
          ≡ ok s)
      × Compiled host tester absl temp_path s
          (create_compilation_sandbox host tester max_compilation_duration temp_path (written w)).1
          x w'.state
      × Jailed host tester (compilation tester temp_path).0
          (record default_options { max_execution_duration = max_compilation_duration }) temp_path s

  -- A value of CompileCode comes from a sandbox in which the tester's compiler was run on the program,
  -- with the source file written: its outputs, its status and its hash are those of this run, which
  -- had the time limit of compilations and a policy that makes nothing writable but the temporary
  -- directory and the device of random numbers.
  pub python_compiles :
      (Enters : World (library host tester) → Type 0) (w w' : World (library host tester))
      (x : ExecutionResult)
      → Enters w
      → compile_code absl host tester code temp_path max_compilation_duration w ≡ some (value x, w')
      → JailedCompilation Enters x
  python_compiles Enters w w' x enters gave =
      let (s, made, compiled) =
        compile_code-Compiled host tester absl temp_path code max_compilation_duration w w' x
          gave in
      (
        w,
        enters,
        w',
        gave,
        s,
        made,
        compiled,
        create_compilation_sandbox-Jailed host tester max_compilation_duration temp_path (written w)
            s made,
      )
