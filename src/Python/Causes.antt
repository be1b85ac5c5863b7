-- ===== src/Python/Causes.antt =====
-- The reasons for which CompileCode returns an error.
use code_contests.Prelude.{ℕ, ◌≡◌, ◌≢◌, true, false, some, List, length, Text, codes}
use code_contests.Status.{Error, ok, err, unknown, internal}
use code_contests.Absl.{Absl}
use code_contests.Sandbox.{Os, SandboxWithOutputFds, stdout, stderr}
use code_contests.Results.{ExecutionResult, is_success}
use code_contests.Host.{Host}
use code_contests.Launch.{World}
use code_contests.Python.{PyTesterSandboxer, in_directory, binary_file}
use code_contests.Python.Calls.{library}
use code_contests.Python.Compile.{pycache, no_binary, result_with}

abbrev pub not_started : Error
not_started = record { code = unknown; message = codes "Failed to run sandbox on compilation." }

module _ (absl : Absl) (host : Host) (tester : PyTesterSandboxer) (temp_path : Text) where
  -- The sandbox `s`, from the world `w`, was run and awaited and both its outputs were read: this was the
  -- result, and this the state of the system.
  abbrev pub Ran :
      SandboxWithOutputFds → World (library host tester) → ExecutionResult → host.State → Type 0
  Ran s w r state =
      (n : ℕ) × (out : Text) × (problems : Text) × (object : SandboxWithOutputFds) × (os : Os)
      × (object' : SandboxWithOutputFds) × (os' : Os) × (s.sandbox ≡ some n)
      × ((host.run_async n w.state).0 ≡ true)
      × (stdout absl s w.os ≡ some (ok out, object, os))
      × (stderr absl object os ≡ some (ok problems, object', os'))
      × (result_with absl host tester (host.await_result n (host.run_async n w.state).1).0 out
            problems
          ≡ r)
      × ((host.await_result n (host.run_async n w.state).1).1 ≡ state)

  -- The reasons for an error, for a sandbox `s` that was made, and the world `w` after that.
  pub data Cause (s : SandboxWithOutputFds) (w : World (library host tester)) : Error → Type 0 where
    start :
        (n : ℕ) → s.sandbox ≡ some n → (host.run_async n w.state).0 ≡ false → Cause s w not_started
    bad_stdout :
        (e : Error) (object : SandboxWithOutputFds) (os : Os)
        → stdout absl s w.os ≡ some (err e, object, os)
        → Cause s w e
    bad_stderr :
        (e : Error) (out : Text) (object object' : SandboxWithOutputFds) (os os' : Os)
        → stdout absl s w.os ≡ some (ok out, object, os)
        → stderr absl object os ≡ some (err e, object', os')
        → Cause s w e
    no_file :
        (r : ExecutionResult) (ms : List Text) (state : host.State)
        → Ran s w r state
        → is_success r.program_status ≡ true
        → host.exists (in_directory temp_path binary_file) state ≡ some false
        → host.entries (pycache temp_path) state ≡ some ms
        → length ms ≢ 1
        → Cause s w (record { code = internal; message = no_binary temp_path r ms })
