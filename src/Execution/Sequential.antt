-- ===== src/Execution/Sequential.antt =====
-- RunCodeOnInput as a function, with the two outputs read one after the other.
use code_contests.Prelude.{
  ℕ, ◌≡◌, refl, ap, ◌∙◌, ◌↔◌, Bool, true, false, Option, none, some, Text, codes, subst,
}
use code_contests.Status.{StatusOr, ok, err, error, unknown}
use code_contests.Absl.{Absl}
use code_contests.Results.{ExecutionResult}
use code_contests.Sandbox.{Os, SandboxWithOutputFds, stdout, stderr, destroy}
use code_contests.Sandbox.Caching.{Apart}
use code_contests.Execution.{
  Machine, Shared, Returns, not_created, not_started, finished, started, completed,
}
use code_contests.Execution.Reading.{reading-Done, Done-Sequential}
use code_contests.Execution.Ends.{reads_in_turn}

abbrev both_read : SandboxWithOutputFds → Os → StatusOr Text → StatusOr Text → Shared
both_read s os out problems = record {
  object = s;
  os = os;
  stdout_contents = out;
  stderr_contents = problems;
}

module _ (absl : Absl) (machine : Machine) (max_execution_duration : ℕ)
    (create_test_sandbox : machine.State × Os
      → StatusOr SandboxWithOutputFds × (machine.State × Os)) where
  open machine use {State}

  abbrev Outcome : Type 0
  Outcome = StatusOr ExecutionResult × Os

  abbrev is_started : ℕ → State → Bool
  is_started = started absl machine max_execution_duration create_test_sandbox

  abbrev result_of : ℕ → State → Shared → StatusOr ExecutionResult
  result_of = completed absl machine max_execution_duration create_test_sandbox

  abbrev answer : ℕ → State → Shared → Option Outcome
  answer sandbox state z = some (result_of sandbox state z, destroy z.object z.os)

  abbrev ends_with :
      ℕ
      → State
      → StatusOr Text
      → Option (StatusOr Text × SandboxWithOutputFds × Os)
      → Option Outcome
  ends_with sandbox state out none = none
  ends_with sandbox state out (some (problems, s, os)) =
      answer sandbox state (both_read s os out problems)

  abbrev reads_then :
      ℕ → State → Option (StatusOr Text × SandboxWithOutputFds × Os) → Option Outcome
  reads_then sandbox state none = none
  reads_then sandbox state (some (out, s, os)) = ends_with sandbox state out (stderr absl s os)

  abbrev when_started : ℕ → State → SandboxWithOutputFds → Os → Bool → Option Outcome
  when_started sandbox state s os true = reads_then sandbox state (stdout absl s os)
  when_started sandbox state s os false =
      some (error unknown (codes "Failed to run sandbox on execution."), destroy s os)

  abbrev in_sandbox : State → SandboxWithOutputFds → Os → Option ℕ → Option Outcome
  in_sandbox state s os none = none
  in_sandbox state s os (some sandbox) = when_started sandbox state s os (is_started sandbox state)

  abbrev from_creation : StatusOr SandboxWithOutputFds × (State × Os) → Option Outcome
  from_creation (err e, (state, os)) = some (err e, os)
  from_creation (ok s, (state, os)) = in_sandbox state s os s.sandbox

  -- `none` stands for a read that never ends, or an object without a sandbox.
  pub run_code : State × Os → Option Outcome
  run_code w = from_creation (create_test_sandbox w)

  module _ (w : State × Os) where
    abbrev Result : StatusOr ExecutionResult → Os → Type 0
    Result = Returns absl machine max_execution_duration create_test_sandbox w

    finished-run_code :
        (s : SandboxWithOutputFds) (state : State) (os : Os) (sandbox : ℕ) (z : Shared)
        (s₁ : SandboxWithOutputFds) (os₁ : Os)
        → create_test_sandbox w ≡ (ok s, (state, os))
        → s.sandbox ≡ some sandbox
        → is_started sandbox state ≡ true
        → stdout absl s os ≡ some (z.stdout_contents, s₁, os₁)
        → stderr absl s₁ os₁ ≡ some (z.stderr_contents, z.object, z.os)
        → run_code w ≡ answer sandbox state z
    unfolding run_code
    finished-run_code s state os sandbox z s₁ os₁ e a b out problems =
        ap from_creation e
        ∙ ap (in_sandbox state s os) a
        ∙ ap (when_started sandbox state s os) b
        ∙ ap (reads_then sandbox state) out
        ∙ ap (ends_with sandbox state z.stdout_contents) problems

    Returns-run_code :
        {r : StatusOr ExecutionResult} {os' : Os}
        → ((s : SandboxWithOutputFds) (state : State) (os : Os)
            → create_test_sandbox w ≡ (ok s, (state, os))
            → Apart s.stdout_fd s.stderr_fd)
        → Returns absl machine max_execution_duration create_test_sandbox w r os'
        → run_code w ≡ some (r, os')
    unfolding run_code
    Returns-run_code h (not_created e) = ap from_creation e
    Returns-run_code h (not_started {s} {state} {os} {sandbox} e a b) =
        ap from_creation e ∙ ap (in_sandbox state s os) a ∙ ap (when_started sandbox state s os) b
    Returns-run_code h (finished {s} {state} {os} {sandbox} {p} e a b reach joined) =
        let (s₁, os₁, out, problems) =
          Done-Sequential absl s os (h s state os e) (reading-Done absl reach joined) in
        finished-run_code s state os sandbox p.shared s₁ os₁ e a b out problems

    Result-same :
        {r q : StatusOr ExecutionResult} {os os' : Os}
        → ◌≡◌ {A = Option Outcome} (some (q, os)) (some (r, os'))
        → Result q os
        → Result r os'
    Result-same {r} {q} {os} {os'} e t =
        let same : q ≡ r = cc in
        let left : os ≡ os' = cc in subst (λ x. Result x os') same (subst (Result q) left t)

    module _ (s : SandboxWithOutputFds) (state : State) (os : Os)
        (e : create_test_sandbox w ≡ (ok s, (state, os))) (r : StatusOr ExecutionResult)
        (os' : Os) where
      by_stderr :
          (sandbox : ℕ) (out : StatusOr Text) (s₁ : SandboxWithOutputFds) (os₁ : Os)
          (problems : Option (StatusOr Text × SandboxWithOutputFds × Os))
          → s.sandbox ≡ some sandbox
          → is_started sandbox state ≡ true
          → stdout absl s os ≡ some (out, s₁, os₁)
          → stderr absl s₁ os₁ ≡ problems
          → ends_with sandbox state out problems ≡ some (r, os')
          → Result r os'
      by_stderr sandbox out s₁ os₁ none a b f g h = absurd (cc)
      by_stderr sandbox out s₁ os₁ (some (q, s₂, os₂)) a b f g h =
          let (p, reach, joined, at) = reads_in_turn absl s s₁ s₂ os os₁ os₂ out q f g in
          Result-same (ap (answer sandbox state) at ∙ h) (finished e a b reach joined)

      by_stdout :
          (sandbox : ℕ) (out : Option (StatusOr Text × SandboxWithOutputFds × Os))
          → s.sandbox ≡ some sandbox
          → is_started sandbox state ≡ true
          → stdout absl s os ≡ out
          → reads_then sandbox state out ≡ some (r, os')
          → Result r os'
      by_stdout sandbox none a b f h = absurd (cc)
      by_stdout sandbox (some (out, s₁, os₁)) a b f h =
          by_stderr sandbox out s₁ os₁ (stderr absl s₁ os₁) a b f refl h

      by_start :
          (sandbox : ℕ) (b : Bool)
          → s.sandbox ≡ some sandbox
          → is_started sandbox state ≡ b
          → when_started sandbox state s os b ≡ some (r, os')
          → Result r os'
      by_start sandbox false a b h = Result-same h (not_started e a b)
      by_start sandbox true a b h = by_stdout sandbox (stdout absl s os) a b refl h

      by_sandbox :
          (o : Option ℕ) → s.sandbox ≡ o → in_sandbox state s os o ≡ some (r, os') → Result r os'
      by_sandbox none a h = absurd (cc)
      by_sandbox (some sandbox) a h = by_start sandbox (is_started sandbox state) a refl h

    by_creation :
        (made : StatusOr SandboxWithOutputFds × (State × Os)) (r : StatusOr ExecutionResult)
        (os' : Os)
        → create_test_sandbox w ≡ made
        → from_creation made ≡ some (r, os')
        → Result r os'
    by_creation (err x, (state, os)) r os' e h = Result-same h (not_created e)
    by_creation (ok s, (state, os)) r os' e h = by_sandbox s state os e r os' s.sandbox refl h

    -- RunCodeOnInput, whose two outputs are read by two threads at once, is the function that
    -- reads one after the other, if the two descriptors of the sandbox that CreateTestSandbox
    -- makes differ: however its threads are scheduled, it can return a result and leave the
    -- descriptors in a state exactly if these are the function's result and state. In particular
    -- they do not depend on the schedule.
    pub run_code_iff :
        (r : StatusOr ExecutionResult) (os' : Os)
        → ((s : SandboxWithOutputFds) (state : State) (os : Os)
            → create_test_sandbox w ≡ (ok s, (state, os))
            → Apart s.stdout_fd s.stderr_fd)
        → Returns absl machine max_execution_duration create_test_sandbox w r os'
          ↔ (run_code w ≡ some (r, os'))
    unfolding run_code
    run_code_iff r os' h =
        (λ t. Returns-run_code h t, λ e. by_creation (create_test_sandbox w) r os' refl e)
