-- ===== src/System/Whole.antt =====
-- The whole of `TesterSandboxer::Test` for a Python tester, with the temporary directory that it
-- makes behind its guards.
use code_contests.Prelude.{
  ℕ, ◌<◌, ◌^◌, ◌≡◌, sym, ◌∙◌, ap, ◌⊎◌, inl, inr, Option, none, some, Bool, List, [], length, Text,
  true,
}
use code_contests.Status.{StatusOr, Status, Error, ok, err, ok_status}
use code_contests.Absl.{Absl}
use code_contests.Results.{ExecutionResult, MultiTestResult, success}
use code_contests.Sandbox.{Os}
use code_contests.TempPath.{Surroundings, drawn, construct_path}
use code_contests.TempPath.Names.{construct_path-created}
use code_contests.Runner.Task.{Job, TestOptions, text_at}
use code_contests.Runner.Correctness.{test_error}
use code_contests.Runner.Compiling.{test-compilation}
use code_contests.Runner.{check_arguments, Returns}
use code_contests.Host.{Host}
use code_contests.Launch.{World}
use code_contests.Launch.Outputs.{ReceivesApart}
use code_contests.Python.{PyTesterSandboxer}
use code_contests.Python.Calls.{library}
use code_contests.Python.Action.{fails, throws}
use code_contests.System.{Runs, python_job}
use code_contests.System.Accounts.{Explained, python_accounts}
use code_contests.System.Attempts.{
  Process, alive, dead, compile_at, pause_at, Enters, GivesIn, retried, attempt-value,
  retried-error, retried-dead,
}
use code_contests.System.Compiling.{JailedCompilation, python_compiles}

module _ (absl : Absl) (host : Host) (tester : PyTesterSandboxer) (s : Surroundings) (code : Text)
    (options : TestOptions) (Begins : World (library host tester) → Type 0)
    (inputs expected : List Text) (compare_outputs : Text → Text → Bool)
    (pause : World (library host tester) → World (library host tester)) where
  abbrev pub job_at : Text → Job
  job_at path = python_job absl host tester options path Begins inputs expected compare_outputs

  -- The guards, which do not look at the path.
  abbrev pub guards : Status
  guards = check_arguments (job_at [])

  -- What `Test` returns behind the creation of its directory, if it returns.
  abbrev pub ReturnsAt : Text → World (library host tester) → StatusOr MultiTestResult → Type 1
  ReturnsAt path w r =
      Returns (compile_at absl host tester code pause path)
        (pause_at absl host tester code pause path) (job_at path) (alive w) r

  -- The attempts at CompileCode in this directory.
  abbrev pub attempts :
      (path : Text)
      → World (library host tester)
      → StatusOr ExecutionResult × Process absl host tester code pause path
  attempts path w = retried absl host tester code pause path w

  -- What `Test` can come to; `none` is the end of the process. Where CompileCode throws, the exception
  -- passes through RetryIfFail and `Test`, and ends the process.
  pub data Tests (state : s.State) (w : World (library host tester))
      : Option (StatusOr MultiTestResult) → Type 1 where
    refused : {e : Error} → guards ≡ err e → Tests state w (some (err e))
    aborted :
        {state' : s.State}
        → guards ≡ ok_status
        → construct_path s state ≡ (none, state')
        → Tests state w none
    threw :
        (path : Text) {state' : s.State}
        → guards ≡ ok_status
        → construct_path s state ≡ (some path, state')
        → (attempts path w).1 ≡ dead
        → Tests state w none
    tested_in :
        {r : StatusOr MultiTestResult} (path : Text) {state' : s.State}
        (w' : World (library host tester))
        → guards ≡ ok_status
        → construct_path s state ≡ (some path, state')
        → (attempts path w).1 ≡ alive w'
        → ReturnsAt path w r
        → Tests state w (some r)

  -- The directory of this path was created for this test.
  abbrev pub Created : s.State → Text → Type 0
  Created state path =
      let (millis, rand, before) = drawn s state in (s.create_directory path before).0 ≡ some true

  -- What a result says of the runs, in the four ways in which `Test` can end.
  abbrev pub Says :
      s.State → World (library host tester) → Option (StatusOr MultiTestResult) → Type 0
  Says state w none =
      (guards ≡ ok_status)
      × (((construct_path s state).0 ≡ none)
          ⊎ ((path : Text) × Created state path
              × GivesIn absl host tester code pause path w throws))
  Says state w (some (err e)) =
      (guards ≡ err e)
      ⊎ ((path : Text) × Created state path
          × ((((attempts path w).0 ≡ err e) × GivesIn absl host tester code pause path w (fails e))
              ⊎ ((i : ℕ) × (i < length inputs)
                  × ((w' : World (library host tester)) × Begins w'
                      × ((os' : Os) × Runs absl host tester options path (text_at inputs i) w'
                            (err e) os')))))
  Says state w (some (ok m)) =
      (path : Text) × Created state path
      × JailedCompilation absl host tester code path (Enters absl host tester code pause path w)
          m.compilation_result
      × (m.compilation_result.program_status ≡ success
          → (length m.test_results ≡ length inputs)
            × ((i : ℕ)
                → i < length inputs
                → Explained absl host tester options path Begins inputs expected compare_outputs
                    m.test_results i))

  module _ (threads : 0 < options.num_threads) (small : options.memory_limit_bytes < 2 ^ 63)
      (apart : ReceivesApart (library host tester)) where
    error_of :
        (state : s.State) (w w' : World (library host tester)) (path : Text) (e : Error)
        → guards ≡ ok_status
        → Created state path
        → (attempts path w).1 ≡ alive w'
        → ReturnsAt path w (err e)
        → Says state w (some (err e))
    unfolding check_arguments
    error_of state w w' path e passed created came_back r =
        elim (test_error (compile_at absl host tester code pause path)
          (pause_at absl host tester code pause path) (job_at path) (alive w) e r) [
            | inl bad ↦ absurd (cc (sym passed ∙ bad))
            | inr (inl failed) ↦ inr (
              path,
              created,
              inl (failed, retried-error absl host tester code pause path w w' e failed came_back),
            )
            | inr (inr cause) ↦ inr (path, created, inr cause)
          ]

    compilation_of :
        (w : World (library host tester)) (path : Text) (m : MultiTestResult)
        → ReturnsAt path w (ok m)
        → JailedCompilation absl host tester code path
            (Enters absl host tester code pause path w)
            m.compilation_result
    compilation_of w path m r =
        let (k, within, gave) =
          test-compilation (compile_at absl host tester code pause path)
            (pause_at absl host tester code pause path) (job_at path) (alive w) m r in
        let (w₀, is, (w', gives)) =
          attempt-value absl host tester code pause path _ m.compilation_result gave in
        python_compiles absl host tester code path (Enters absl host tester code pause path w) w₀ w'
          m.compilation_result (k, within, is) gives

    said :
        (state : s.State) (w w' : World (library host tester)) (path : Text)
        (r : StatusOr MultiTestResult)
        → guards ≡ ok_status
        → Created state path
        → (attempts path w).1 ≡ alive w'
        → ReturnsAt path w r
        → Says state w (some r)
    said state w w' path (err e) passed created came_back r =
        error_of state w w' path e passed created came_back r
    said state w w' path (ok m) passed created came_back r = (
      path,
      created,
      compilation_of w path m r,
      λ good.
          python_accounts absl host tester options path Begins inputs expected compare_outputs
            (compile_at absl host tester code pause path)
            (pause_at absl host tester code pause path) (alive w) m threads small apart r good,
    )

    -- The whole of `Test` for a Python tester, on every way out, with at least one thread, a
    -- memory limit that fits its type, and descriptors that differ. The process ends only where the
    -- guards let the arguments pass, and the temporary directory could not be made or an attempt at
    -- CompileCode threw. An error is that of the guards; or, with the directory created for this
    -- test, that of the compilation behind its attempts, which CompileCode returned in one of them, or
    -- one that RunCodeOnInput gave for one of the inputs in a world in which a test may begin. Behind
    -- a value the directory was created for this test too; the compilation result comes from a
    -- confined run of the tester's compiler on the program there, in one of the attempts; and if the
    -- compilation succeeded there is one result for each input, explained by a confined run on this
    -- input from a world in which a test may begin, with the outputs that this world gives; or empty
    -- because testing stopped early or the run was cancelled.
    pub Tests-Says :
        (state : s.State) (w : World (library host tester)) (o : Option (StatusOr MultiTestResult))
        → Tests state w o
        → Says state w o
    Tests-Says state w o (refused e) = inl e
    Tests-Says state w o (aborted passed made) = (passed, inl (ap (λ r. r.0) made))
    Tests-Says state w o (threw path {state'} passed made ends) = (
      passed,
      inr (
        path,
        (construct_path-created s state state' path made).0,
        retried-dead absl host tester code pause path w ends,
      ),
    )
    Tests-Says state w o (tested_in {r} path {state'} w' passed made came_back t) =
        said state w w' path r passed (construct_path-created s state state' path made).0 came_back
          t
