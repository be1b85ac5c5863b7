-- ===== src/System/Closing.antt =====
-- Who closes the descriptors of a test.
use code_contests.Prelude.{arith, ℕ, ◌≡◌, ap, subst, ◌⊎◌, inl, inr, [], Text}
use code_contests.Status.{StatusOr, Error, err}
use code_contests.Absl.{Absl}
use code_contests.Results.{ExecutionResult}
use code_contests.Sandbox.{Os}
use code_contests.Runner.Task.{TestOptions}
use code_contests.Execution.{not_created, not_started, finished}
use code_contests.Execution.Laws.{Returns-closes}
use code_contests.Host.{Host}
use code_contests.Launch.{World}
use code_contests.Launch.Balance.{Balance, Balanced, Lost, create_sandbox_with_fds-balance}
use code_contests.Python.{PyTesterSandboxer, execution}
use code_contests.Python.Calls.{library, create_test_sandbox}
use code_contests.System.{machine_of, packed, creation, Runs}

module _ (absl : Absl) (host : Host) (tester : PyTesterSandboxer) (options : TestOptions)
    (temp_path : Text) where
  -- The world when RunCodeOnInput has returned: the descriptors are `os`, and nothing was received
  -- after the sandbox was made.
  abbrev pub world_after : Text → World (library host tester) → Os → World (library host tester)
  world_after input w os' = record (create_test_sandbox host tester input options temp_path w).1 {
    os = os';
  }

  creation-balance :
      (d : ℕ) (input : Text) (w : World (library host tester))
      → Balanced
          (library host tester)
          d
          (execution tester temp_path).1
          w
          (create_test_sandbox host tester input options temp_path w)
  unfolding create_test_sandbox
  creation-balance d input w =
      create_sandbox_with_fds-balance (library host tester) d (execution tester temp_path).0 input
        (execution tester temp_path).1 options [] host.environ w

  error_of :
      (input : Text) (w : World (library host tester)) {r : StatusOr ExecutionResult} {os' : Os}
      (y : Error)
      → (create_test_sandbox host tester input options temp_path w).0 ≡ err y
      → Runs absl host tester options temp_path input w r os'
      → (r ≡ err y) × ((create_test_sandbox host tester input options temp_path w).1.os ≡ os')
  error_of input w y e (not_created f) = (cc, cc)
  error_of input w y e (not_started f g k) = absurd (cc)
  error_of input w y e (finished f g k r j) = absurd (cc)

  -- Who closes what a test of a Python program receives. When RunCodeOnInput has returned, every
  -- descriptor that was received for it was closed exactly as often as it was received, whatever the
  -- sandbox did and whatever the result is, except where CreatePolicy gave the error that is
  -- returned: then the two descriptors of the outputs were not closed.
  pub run-Balance :
      (d : ℕ) (input : Text) (w : World (library host tester)) (r : StatusOr ExecutionResult)
      (os' : Os)
      → Runs absl host tester options temp_path input w r os'
      → Balance (library host tester) d w (world_after input w os') 0
        ⊎ ((y : Error) × (r ≡ err y)
            × Lost
                (library host tester)
                d
                y
                (execution tester temp_path).1
                w
                (world_after input w os'))
  run-Balance d input w r os' run = elim (creation-balance d input w) [
    | inl (s, e, b) ↦
        let w₁ = (create_test_sandbox host tester input options temp_path w).1 in
        let closed =
          Returns-closes absl (machine_of host) options.max_execution_duration
            (creation absl host tester options temp_path input)
            (packed absl host tester options temp_path w) s (w₁.state, w₁.received)
            (ap (λ q. (q, ((w₁.state, w₁.received), w₁.os))) e) run d in
        inl (omega (arith, b, closed))
    | inr (y, e, inl b) ↦
        let (r_is, os_is) = error_of input w y e run in
        inl (subst (λ x. Balance (library host tester) d w (world_after input w x) 0) os_is b)
    | inr (y, e, inr lost) ↦
        let (r_is, os_is) = error_of input w y e run in
        inr (
          y,
          r_is,
          subst
              (λ x.
                Lost (library host tester) d y (execution tester temp_path).1 w
                  (world_after input w x))
              os_is lost,
        )
  ]
