-- ===== src/Execution/Ends.antt =====
-- When RunCodeOnInput returns.
use code_contests.Prelude.{ℕ, ◌≡◌, refl, inl, inr, some, [], ◌∷◌, Text, Bool-cases}
use code_contests.Status.{StatusOr, ok, err}
use code_contests.Absl.{Absl}
use code_contests.Results.{ExecutionResult}
use code_contests.Sandbox.{Os, SandboxWithOutputFds, stdout, stderr}
use code_contests.Sandbox.Ending.{Readable, stdout-Readable, stderr-Ends}
use code_contests.Pool.{
  Pool, Reach, Joined, started, step, schedules, closes, takes, stops, returns,
}
use code_contests.Execution.{
  Machine, reads_stdout, reads_stderr, before_reading, readers, has_read_stdout, has_read_stderr,
  Returns, not_created, not_started, finished,
}

module _ (absl : Absl) where
  -- The threads of one run: stdout is read by the first, then stderr by the second.
  pub reads_in_turn :
      (s s₁ s₂ : SandboxWithOutputFds) (os os₁ os₂ : Os) (r q : StatusOr Text)
      → stdout absl s os ≡ some (r, s₁, os₁)
      → stderr absl s₁ os₁ ≡ some (q, s₂, os₂)
      → (p : Pool (readers absl)) × Reach
          (readers absl)
          2
          (reads_stdout ∷ reads_stderr ∷ [])
          (before_reading s os)
          p
        × Joined (readers absl) p
        × (p.shared ≡ record { object = s₂; os = os₂; stdout_contents = r; stderr_contents = q })
  reads_in_turn s s₁ s₂ os os₁ os₂ r q out problems =
      let scheduled =
        step (step (step started (schedules refl)) (schedules refl)) (closes refl refl) in
      let taken = step (step scheduled (takes 0 refl refl)) (takes 1 refl refl) in
      let read =
        step (step taken (returns 0 refl (has_read_stdout out)))
          (returns 1 refl (has_read_stderr problems)) in
      (
        _,
        step (step read (stops 0 refl refl)) (stops 1 refl refl),
        record { shut = refl; all_exited = (refl, (refl, tt)) },
        refl,
      )

  reads_both :
      (s : SandboxWithOutputFds) (os : Os)
      → Readable absl s os
      → (p : Pool (readers absl)) × Reach
          (readers absl)
          2
          (reads_stdout ∷ reads_stderr ∷ [])
          (before_reading s os)
          p
        × Joined (readers absl) p
  reads_both s os h =
      let (r, s₁, os₁, out, left) = stdout-Readable absl s os h in
      let (q, s₂, os₂, problems) = stderr-Ends absl s₁ os₁ left in
      let (p, reach, joined, _) = reads_in_turn s s₁ s₂ os os₁ os₂ r q out problems in
      (p, reach, joined)

module _ (absl : Absl) (machine : Machine) (max_execution_duration : ℕ)
    (create_test_sandbox : machine.State × Os
      → StatusOr SandboxWithOutputFds × (machine.State × Os)) where
  open machine use {State, now, run_async}

  -- RunCodeOnInput returns, whatever the sandbox does, if every sandbox that CreateTestSandbox makes
  -- is one, and its outputs have descriptors of their own and reads that end.
  pub run_code-Returns :
      (w : State × Os)
      → ((s : SandboxWithOutputFds) (state : State) (os : Os)
          → create_test_sandbox w ≡ (ok s, (state, os))
          → ((n : ℕ) × (s.sandbox ≡ some n)) × Readable absl s os)
      → (r : StatusOr ExecutionResult) × (os' : Os) × Returns absl machine max_execution_duration
          create_test_sandbox w r os'
  run_code-Returns w h = from (create_test_sandbox w) refl
    where
      from :
          (made : StatusOr SandboxWithOutputFds × (State × Os))
          → create_test_sandbox w ≡ made
          → (r : StatusOr ExecutionResult) × (os' : Os) × Returns absl machine
              max_execution_duration create_test_sandbox w r os'
      from (err e, (state, os)) made = (_, _, not_created made)
      from (ok s, (state, os)) made =
          let ((n, is), readable) = h s state os made in
          elim (Bool-cases (run_async n (now state).1).0) [
            | inr off ↦ (_, _, not_started made is off)
            | inl on ↦
                let (p, reach, joined) = reads_both absl s os readable in
                (_, _, finished made is on reach joined)
          ]
