-- ===== src/Python/Compile.antt =====
-- `PyTesterSandboxer::CompileCode` of execution/py_tester_sandboxer.cc.
use code_contests.Prelude.{
  ℕ, Bool, true, false, Option, some, List, [], ◌∷◌, ◌++◌, if◌then◌else◌, Text, codes,
}
use code_contests.Status.{StatusOr, ok, err, unknown, internal}
use code_contests.Absl.{Absl}
use code_contests.Sandbox.{SandboxWithOutputFds}
use code_contests.Results.{SandboxResult, ExecutionResult, is_success, from_compilation}
use code_contests.Host.{Host}
use code_contests.Launch.{World}
use code_contests.Python.{
  PyTesterSandboxer, code_file, binary_file, in_directory, source_text, program_hash,
}
use code_contests.Python.Calls.{library, create_compilation_sandbox}
use code_contests.Python.Action.{
  Result, fails, Action, run_async, await_result, read_stdout, read_stderr, pure, fail, asks,
  changes, leave, ◌>>=◌, ◌>>◌,
}

-- absl::StrJoin(matches, ", ")
abbrev joined : List Text → Text
joined [] = []
joined (m ∷ []) = m
joined (m ∷ n ∷ ms) = m ++ codes ", " ++ joined (n ∷ ms)

abbrev pub pycache : Text → Text
pycache temp_path = in_directory temp_path (codes "__pycache__")

-- The message where no binary can be identified.
unfoldable pub no_binary : Text → ExecutionResult → List Text → Text
no_binary temp_path r matches =
    codes "Was not able to identify the compiled Python code file in "
    ++ pycache temp_path
    ++ codes ".\nstdout from compilation: \""
    ++ r.stdout
    ++ codes "\"\nstderr from compilation: \""
    ++ r.stderr
    ++ codes "\"\nfiles found: "
    ++ joined matches

module _ (absl : Absl) (host : Host) (tester : PyTesterSandboxer) where
  -- if (matches.size() != 1) return ...; copy(matches.front(), binary_path)
  unfoldable pub copy_only : Text → ExecutionResult → List Text → Action host tester (Unit {0})
  unfolding no_binary
  copy_only temp_path r (m ∷ []) =
      changes host tester (host.copy_file m (in_directory temp_path binary_file))
  copy_only temp_path r matches =
      fail host tester (record { code = internal; message = no_binary temp_path r matches })

  -- `if (!exists(binary_path)) { ... }`
  unfoldable pub find_binary : Text → ExecutionResult → Action host tester (Unit {0})
  unfolding copy_only
  find_binary temp_path r = do
    found ← asks host tester (host.exists (in_directory temp_path binary_file))
    if found
        then pure host tester tt
        else (asks host tester (host.entries (pycache temp_path)) >>= copy_only temp_path r)

  -- The hash of the binary without its header and with a relative path, if there is no exception.
  abbrev pub hash_in : Text → host.State → Option ℕ
  hash_in temp_path state =
      program_hash host.fingerprint (host.contents (in_directory temp_path binary_file) state)
        (in_directory temp_path code_file)

  -- The block for a successful compilation.
  unfoldable pub with_hash : Text → ExecutionResult → Action host tester ExecutionResult
  unfolding find_binary
  with_hash temp_path r = do
    find_binary temp_path r
    hash ← asks host tester (hash_in temp_path)
    pure host tester (record r { program_hash = hash })

  -- if (!...RunAsync()) return absl::UnknownError(...)
  abbrev pub require_start : Bool → Action host tester (Unit {0})
  require_start true = pure host tester tt
  require_start false =
      fail host tester
        (record { code = unknown; message = codes "Failed to run sandbox on compilation." })

  -- if (execution_result.program_status == ProgramStatus::kSuccess) ...
  unfoldable pub hash_if : Bool → Text → ExecutionResult → Action host tester ExecutionResult
  unfolding with_hash
  hash_if true temp_path r = with_hash temp_path r
  hash_if false temp_path r = pure host tester r

  abbrev pub result_with : SandboxResult → Text → Text → ExecutionResult
  result_with result out problems = record (from_compilation result) {
    stdout = out;
    stderr = problems;
  }

  -- What follows CreateSandboxWithFds.
  unfoldable pub run_compiler : Text → Action host tester ExecutionResult
  unfolding hash_if
  run_compiler temp_path = do
    started ← run_async host tester
    require_start started
    result ← await_result host tester
    out ← read_stdout host tester absl
    problems ← read_stderr host tester absl
    let r = result_with result out problems
    hash_if (is_success r.program_status) temp_path r

  -- ASSIGN_OR_RETURN of the sandbox, and the rest of the function.
  unfoldable pub compile_in :
      Text
      → StatusOr SandboxWithOutputFds × World (library host tester)
      → Option (Result ExecutionResult × World (library host tester))
  unfolding run_compiler leave
  compile_in temp_path (err e, w) = some (fails e, w)
  compile_in temp_path (ok s, w) =
      leave host tester (run_compiler temp_path (record { object = s; world = w }))

  -- The source file is written whatever comes of it.
  unfoldable pub compile_code :
      Text
      → Text
      → ℕ
      → World (library host tester)
      → Option (Result ExecutionResult × World (library host tester))
  unfolding compile_in
  compile_code code temp_path max_compilation_duration w =
      let state =
        host.write_file (in_directory temp_path code_file) (source_text tester code) w.state in
      compile_in temp_path (
        create_compilation_sandbox host tester max_compilation_duration temp_path
          (record w { state = state }))
