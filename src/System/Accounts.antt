-- ===== src/System/Accounts.antt =====
-- What the results of a Python test run say of its sandboxes.
use code_contests.Prelude.{
  ℕ, ◌<◌, ◌^◌, ◌≡◌, ap, ◌⊎◌, inl, inr, Bool, some, List, [], length, get_elem?, Text,
}
use code_contests.Status.{StatusOr, ok}
use code_contests.Absl.{Absl}
use code_contests.Results.{ExecutionResult, MultiTestResult, default_result, success}
use code_contests.Sandbox.{Os, SandboxWithOutputFds}
use code_contests.Runner.Task.{Job, TestOptions, judge, text_at}
use code_contests.Runner.Run.{input_count}
use code_contests.Runner.Correctness.{Accounted, Excused, test_accounts}
use code_contests.Runner.{Returns}
use code_contests.Execution.Completed.{Executed, Returns-Executed}
use code_contests.Host.{Host}
use code_contests.Launch.{World}
use code_contests.Launch.Outputs.{
  ReceivesApart, Constructed, create_sandbox_with_fds-Constructed, Constructed-Apart,
}
use code_contests.Python.{PyTesterSandboxer, execution}
use code_contests.Python.Calls.{library, create_test_sandbox}
use code_contests.Python.Confinement.{Jailed, create_test_sandbox-Jailed}
use code_contests.System.{machine_of, packed, creation, Runs, python_job}

module _ (absl : Absl) (host : Host) (tester : PyTesterSandboxer) (options : TestOptions)
    (temp_path : Text) where
  -- `x` is the result of a run of the tester's program on the input, from a world in which a test may
  -- begin: this world fixes the sandbox and what can be read from it. The sandbox was confined
  -- as the options say and that could write only to the temporary directory.
  abbrev pub JailedRun : (World (library host tester) → Type 0) → Text → ExecutionResult → Type 0
  JailedRun Begins input x =
      (w : World (library host tester)) × Begins w
      × (s : SandboxWithOutputFds) × (state : (machine_of host).State) × (os : Os) × (creation absl
            host tester options temp_path input (packed absl host tester options temp_path w)
          ≡ (ok s, (state, os)))
      × Executed absl (machine_of host) options.max_execution_duration
          (creation absl host tester options temp_path input) s state os x
      × Jailed host tester (execution tester temp_path).0 options temp_path s

  pub creation-Constructed :
      (input : Text) (w : World (library host tester)) (s : SandboxWithOutputFds)
      → (create_test_sandbox host tester input options temp_path w).0 ≡ ok s
      → Constructed (library host tester) s
  unfolding create_test_sandbox
  creation-Constructed input w s e =
      create_sandbox_with_fds-Constructed (library host tester) (execution tester temp_path).0 input
        (execution tester temp_path).1 options [] host.environ w s e

  Runs-JailedRun :
      (Begins : World (library host tester) → Type 0) (input : Text)
      (w : World (library host tester)) (x : ExecutionResult) (os' : Os)
      → Begins w
      → options.memory_limit_bytes < 2 ^ 63
      → ReceivesApart (library host tester)
      → Runs absl host tester options temp_path input w (ok x) os'
      → JailedRun Begins input x
  Runs-JailedRun Begins input w x os' b small apart r =
      let (s, state, os, made, ran) =
        Returns-Executed absl (machine_of host) options.max_execution_duration
          (creation absl host tester options temp_path input)
          (packed absl host tester options temp_path w) x os'
          (λ s state os e.
            Constructed-Apart (library host tester) s apart
              (creation-Constructed input w s (ap (λ p. p.0) e)))
          r in
      (
        w,
        b,
        s,
        state,
        os,
        made,
        ran,
        create_test_sandbox-Jailed host tester input options temp_path w s small
            (ap (λ p. p.0) made),
      )

  module _ (Begins : World (library host tester) → Type 0) (inputs expected : List Text)
      (compare_outputs : Text → Text → Bool) where
    abbrev pub job : Job
    job = python_job absl host tester options temp_path Begins inputs expected compare_outputs

    -- What the result at place `i` stands for: a run in such a sandbox on this very input, with
    -- the verdict, or nothing, for a reason.
    abbrev pub Explained : List ExecutionResult → ℕ → Type 0
    Explained rs i =
        (x : ExecutionResult) × (get_elem? rs i ≡ some x)
        × (((x₀ : ExecutionResult) × JailedRun Begins (text_at inputs i) x₀ × (x ≡ judge job i x₀))
            ⊎ ((x ≡ default_result) × Excused job rs i))

    explain :
        (rs : List ExecutionResult) (i : ℕ)
        → options.memory_limit_bytes < 2 ^ 63
        → ReceivesApart (library host tester)
        → Accounted job rs i
        → Explained rs i
    explain rs i small apart (x, e, inl (x₀, (w, b, (os', r)), same)) =
        (x, e, inl (x₀, Runs-JailedRun Begins (text_at inputs i) w x₀ os' b small apart r, same))
    explain rs i small apart (x, e, inr other) = (x, e, inr other)

    -- The whole of `Test` for a Python tester: with at least one thread, a memory limit that fits
    -- its type and descriptors that differ, let it return a value whose compilation succeeded. Then
    -- there is one result for each input, and each of them comes from a run of the program on this
    -- very input from a world in which a test may begin, in a sandbox that was made under the limits of the test and with a policy that
    -- makes nothing writable but the temporary directory and the device of random numbers: its
    -- outputs are what this sandbox's descriptors give in this world, read to their ends, its status that for what this
    -- sandbox ended with, and its verdict, if outputs are checked, the comparison with this input's
    -- expected output. Or it is the empty result, because testing stopped early or the run was
    -- cancelled.
    pub python_accounts :
        {W : Type 0} (compile_code : ℕ → W → StatusOr ExecutionResult × W) (pause : W → W) (w : W)
        (m : MultiTestResult)
        → 0 < options.num_threads
        → options.memory_limit_bytes < 2 ^ 63
        → ReceivesApart (library host tester)
        → Returns compile_code pause job w (ok m)
        → m.compilation_result.program_status ≡ success
        → (length m.test_results ≡ input_count job)
          × ((i : ℕ) → i < input_count job → Explained m.test_results i)
    python_accounts compile_code pause w m threads small apart r good =
        let (len, each) = test_accounts compile_code pause job w m threads r good in
        (len, λ i h. explain m.test_results i small apart (each i h))
