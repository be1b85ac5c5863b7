-- ===== src/Execution/Laws.antt =====
-- What RunCodeOnInput promises: one result however its threads run, and no descriptor left open.
use code_contests.Prelude.{subst, ℕ, ◌+◌, ◌≡◌, refl, sym, ◌∙◌}
use code_contests.Status.{StatusOr, ok}
use code_contests.Absl.{Absl}
use code_contests.Results.{ExecutionResult}
use code_contests.Sandbox.{Os, SandboxWithOutputFds}
use code_contests.Sandbox.Caching.{Apart}
use code_contests.Sandbox.Ownership.{owns, destroy-closes}
use code_contests.Execution.{Machine, Returns, not_created, not_started, finished, Shared}
use code_contests.Execution.Reading.{Done, reading-Done, Done-unique, Done-closes}

module _ (absl : Absl) (machine : Machine) (max_execution_duration : ℕ)
    (create_test_sandbox : machine.State × Os
      → StatusOr SandboxWithOutputFds × (machine.State × Os))
    (w : machine.State × Os) where
  open machine use {State}

  abbrev Result : StatusOr ExecutionResult → Os → Type 0
  Result = Returns absl machine max_execution_duration create_test_sandbox w

  one_creation :
      {s s' : SandboxWithOutputFds} {state state' : State} {os os' : Os}
      → create_test_sandbox w ≡ (ok s, (state, os))
      → create_test_sandbox w ≡ (ok s', (state', os'))
      → (s ≡ s') × (state ≡ state') × (os ≡ os')
  one_creation e f = (cc, cc, cc)

  Done-same :
      {s s' : SandboxWithOutputFds} {os os' : Os} {y z : Shared}
      → s ≡ s'
      → os ≡ os'
      → Apart s.stdout_fd s.stderr_fd
      → Done absl s os y
      → Done absl s' os' z
      → y ≡ z
  Done-same {s} {s'} {os} {os'} {y} {z} e f h a b =
      Done-unique absl s os h a
        (subst (λ x. Done absl x os z) (sym e) (subst (λ x. Done absl s' x z) (sym f) b))

  -- RunCodeOnInput has one result, and leaves the descriptors in one state, however its two threads
  -- are scheduled, if the two descriptors of the sandbox that CreateTestSandbox makes differ.
  pub Returns-unique :
      {r q : StatusOr ExecutionResult} {os os' : Os}
      → ((s : SandboxWithOutputFds) (state : State) (before : Os)
          → create_test_sandbox w ≡ (ok s, (state, before))
          → Apart s.stdout_fd s.stderr_fd)
      → Returns absl machine max_execution_duration create_test_sandbox w r os
      → Returns absl machine max_execution_duration create_test_sandbox w q os'
      → (r ≡ q) × (os ≡ os')
  Returns-unique h (not_created e) (not_created f) = (cc, cc)
  Returns-unique h (not_created e) (not_started f g k) = absurd (cc)
  Returns-unique h (not_created e) (finished f g k r j) = absurd (cc)
  Returns-unique h (not_started e _ _) (not_created f) = absurd (cc)
  Returns-unique h (not_started e a b) (not_started f g k) =
      (refl, let (es, est, eo) = one_creation e f in cc)
  Returns-unique h (not_started e a b) (finished f g k r j) =
      let (es, est, eo) = one_creation e f in absurd (cc)
  Returns-unique h (finished e a b _ _) (not_created f) = absurd (cc)
  Returns-unique h (finished e a b r j) (not_started f g k) =
      let (es, est, eo) = one_creation e f in absurd (cc)
  Returns-unique h (finished {s = s} {state = state} {os = os} e a b r j) (finished f g k r' j') =
      let (es, est, eo) = one_creation e f in
      let same =
        Done-same es eo (h s state os e) (reading-Done absl r j) (reading-Done absl r' j') in
      (cc, cc)

  -- Whatever RunCodeOnInput returns, once it has the sandbox from CreateTestSandbox it closes each
  -- of the sandbox's descriptors exactly once, and no other.
  pub Returns-closes :
      {r : StatusOr ExecutionResult} {os os' : Os} (s : SandboxWithOutputFds) (state : State)
      → create_test_sandbox w ≡ (ok s, (state, os))
      → Returns absl machine max_execution_duration create_test_sandbox w r os'
      → (d : ℕ) → os'.closes d ≡ os.closes d + owns d s
  Returns-closes s state e (not_created f) d = absurd (cc)
  Returns-closes s state e (not_started {s = s'} {os = os''} f g k) d =
      let (es, est, eo) = one_creation e f in destroy-closes d s' os'' ∙ cc
  Returns-closes s state e (finished {s = s'} {os = os''} {p = p} f g k r j) d =
      let (es, est, eo) = one_creation e f in
      destroy-closes d p.shared.object p.shared.os
      ∙ Done-closes absl s' os'' d (reading-Done absl r j)
      ∙ cc
