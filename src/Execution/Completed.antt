-- ===== src/Execution/Completed.antt =====
-- What a result of RunCodeOnInput stands for, and when there is one.
use code_contests.Prelude.{ℕ, ◌*◌, ◌≡◌, refl, sym, ap, ap₂, ◌∙◌, true, some}
use code_contests.Prelude.Int.{sub_ℕ}
use code_contests.Status.{StatusOr, ok}
use code_contests.Status.Laws.{>>=-eq-ok}
use code_contests.Absl.{Absl}
use code_contests.Results.{ExecutionResult, SandboxResult, from_test}
use code_contests.Sandbox.{Os, SandboxWithOutputFds, stdout, stderr}
use code_contests.Sandbox.Caching.{Apart}
use code_contests.Execution.{Machine, Shared, Returns, not_created, not_started, finished, assemble}
use code_contests.Execution.Reading.{Done-Sequential, reading-Done}

-- A result whose parts were assembled.
assembled :
    (z : Shared) (result : SandboxResult) (start_time end_time : ℕ) (x : ExecutionResult)
    → assemble z result start_time end_time ≡ ok x
    → (z.stdout_contents ≡ ok x.stdout)
      × (z.stderr_contents ≡ ok x.stderr)
      × (record (from_test result) {
        stdout = x.stdout;
        stderr = x.stderr;
        execution_duration = sub_ℕ end_time start_time;
      }
          ≡ x)
unfolding assemble
assembled z result start_time end_time x e =
    let (out, n, e₁) = >>=-eq-ok z.stdout_contents _ e in
    let (problems, m, e₂) = >>=-eq-ok z.stderr_contents _ e₁ in
    let x_is : record (from_test result) {
      stdout = out;
      stderr = problems;
      execution_duration = sub_ℕ end_time start_time;
    }
        ≡ x =
      cc in
    let out_is : out ≡ x.stdout = ap (λ (y : ExecutionResult). y.stdout) x_is in
    let err_is : problems ≡ x.stderr = ap (λ (y : ExecutionResult). y.stderr) x_is in
    (
      n ∙ ap ok out_is,
      m ∙ ap ok err_is,
      ap₂
            (λ a b. record (from_test result) {
              stdout = a;
              stderr = b;
              execution_duration = sub_ℕ end_time start_time;
            })
            (sym out_is) (sym err_is)
          ∙ x_is,
    )

module _ (absl : Absl) (machine : Machine) (max_execution_duration : ℕ)
    (create_test_sandbox : machine.State × Os
      → StatusOr SandboxWithOutputFds × (machine.State × Os)) where
  open machine use {State, now, run_async, set_walltime_limit, await_result}

  -- The sandbox `s` was made, started in `state` with the descriptors `os` and awaited; and this came
  -- of it. The outputs are as they are when they are read one after the other.
  pub record Executed (s : SandboxWithOutputFds) (state : State) (os : Os) (x : ExecutionResult)
      : Type 0 where
    pub sandbox : ℕ
    pub is_sandbox : s.sandbox ≡ some sandbox
    pub has_started : (run_async sandbox (now state).1).0 ≡ true
    pub object_out : SandboxWithOutputFds
    pub os_out : Os
    pub reads_out : stdout absl s os ≡ some (ok x.stdout, object_out, os_out)
    pub object_err : SandboxWithOutputFds
    pub os_err : Os
    pub reads_err : stderr absl object_out os_out ≡ some (ok x.stderr, object_err, os_err)
    pub is_result :
        let awaited = await_result sandbox (
          set_walltime_limit sandbox
            (max_execution_duration * 30)
            (run_async sandbox (now state).1).1) in
        record (from_test awaited.0) {
          stdout = x.stdout;
          stderr = x.stderr;
          execution_duration = sub_ℕ (now awaited.1).0 (now state).0;
        }
        ≡ x

  -- One that the system made and ran.
  abbrev WasExecuted : State × Os → ExecutionResult → Type 0
  WasExecuted w x =
      (s : SandboxWithOutputFds) × (state : State) × (os : Os) × (create_test_sandbox w
        ≡ (ok s, (state, os)))
      × Executed s state os x

  module _ (w : State × Os) where
    executed :
        {r : StatusOr ExecutionResult} {os' : Os} (x : ExecutionResult)
        → ((s : SandboxWithOutputFds) (state : State) (os : Os)
            → create_test_sandbox w ≡ (ok s, (state, os))
            → Apart s.stdout_fd s.stderr_fd)
        → Returns absl machine max_execution_duration create_test_sandbox w r os'
        → r ≡ ok x
        → WasExecuted w x
    executed x h (not_created e) same = absurd (cc)
    executed x h (not_started e a b) same = absurd (cc)
    executed x h (finished {s = s} {state = state} {os = os} {sandbox = sandbox} {p = p} e a b r j)
          same =
        let (s₁, os₁, out, problems) =
          Done-Sequential absl s os (h s state os e) (reading-Done absl r j) in
        let (out_is, err_is, x_is) = assembled p.shared _ _ _ x same in
        (
          s,
          state,
          os,
          e,
          record {
            sandbox = sandbox;
            is_sandbox = a;
            has_started = b;
            object_out = s₁;
            os_out = os₁;
            reads_out = out ∙ ap (λ t. some (t, s₁, os₁)) out_is;
            object_err = p.shared.object;
            os_err = p.shared.os;
            reads_err = problems ∙ ap (λ t. some (t, p.shared.object, p.shared.os)) err_is;
            is_result = x_is;
          },
        )

    -- What a result of RunCodeOnInput stands for, however its threads ran, if the outputs of the
    -- sandbox have different descriptors: a sandbox was made and started; the status and the text are
    -- those for what it ended with, the duration is the time between the two looks at the clock, and
    -- the outputs are what its descriptors give up to their ends.
    pub Returns-Executed :
        (x : ExecutionResult) (os' : Os)
        → ((s : SandboxWithOutputFds) (state : State) (os : Os)
            → create_test_sandbox w ≡ (ok s, (state, os))
            → Apart s.stdout_fd s.stderr_fd)
        → Returns absl machine max_execution_duration create_test_sandbox w (ok x) os'
        → WasExecuted w x
    Returns-Executed x os' h r = executed x h r refl
