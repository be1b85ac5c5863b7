-- ===== src/System/Isolation.antt =====
-- Two tests of Python programs at once, each with its own temporary directory.
use code_contests.Prelude.{
  ℕ, List, ◌⊎◌, inl, inr, ◌<◌, ◌^◌, ◌≡◌, ◌≢◌, subst, sym, ◌∙◌, some, true, false, All, All-mono,
  Text, ap,
}
use code_contests.Status.{ok}
use code_contests.Sandbox.{SandboxWithOutputFds}
use code_contests.Runner.Task.{TestOptions}
use code_contests.Policy.{
  Call, allow_syscall, allow_syscalls, allow, add_policy_on_syscall, add_file, add_directory,
  add_file_at, add_libraries_for_binary, collect_stacktraces, join_paths,
}
use code_contests.TempPath.{Surroundings, construct_path}
use code_contests.TempPath.Names.{PrintsNumbers}
use code_contests.TempPath.Separate.{
  Overlap, IsTempPath, device-apart, construct_path-IsTempPath, key, keys-apart,
}
use code_contests.Host.{Host}
use code_contests.Launch.{Executor, Paths, World}
use code_contests.Python.{PyTesterSandboxer}
use code_contests.Python.Calls.{
  library, policy_calls, create_test_sandbox, create_compilation_sandbox,
}
use code_contests.Python.Confinement.{
  Jailed, WritesIn, create_test_sandbox-Jailed, create_compilation_sandbox-Jailed,
}

-- A call makes nothing writable that is this directory, is in it or holds it.
abbrev pub Spares : Text → Call → Type 0
Spares q (add_file path false) = Overlap path q → ⊥
Spares q (add_directory path false) = Overlap path q → ⊥
Spares q _ = Unit

module _ (host : Host) (tester : PyTesterSandboxer) where
  joined-IsTempPath : (p : Text) → IsTempPath p → join_paths host.working_directory p ≡ p
  joined-IsTempPath p (name, e, plain) = ap (join_paths host.working_directory) e ∙ sym e

  WritesIn-Spares :
      (p q : Text)
      → IsTempPath p
      → IsTempPath q
      → (Overlap p q → ⊥)
      → (c : Call) → WritesIn host tester p c
      → Spares q c
  WritesIn-Spares p q a b apart (add_file path false) h =
      λ o. device-apart q b (subst (λ x. Overlap x q) h o)
  WritesIn-Spares p q a b apart (add_directory path false) h =
      λ o. apart (subst (λ x. Overlap x q) (h ∙ joined-IsTempPath p a) o)
  WritesIn-Spares p q a b apart (add_file path true) h = tt
  WritesIn-Spares p q a b apart (add_directory path true) h = tt
  WritesIn-Spares p q a b apart (allow_syscall n) h = tt
  WritesIn-Spares p q a b apart (allow_syscalls n) h = tt
  WritesIn-Spares p q a b apart (allow n) h = tt
  WritesIn-Spares p q a b apart (add_policy_on_syscall n f) h = tt
  WritesIn-Spares p q a b apart (add_file_at x y) h = tt
  WritesIn-Spares p q a b apart (add_libraries_for_binary x) h = tt
  WritesIn-Spares p q a b apart (collect_stacktraces x y) h = tt

  -- The policy that the sandbox was made with spares the directory.
  abbrev pub KeepsOut : Text → SandboxWithOutputFds → Type 0
  KeepsOut q s =
      (x : Executor) × (paths : Paths) × (policy : host.Policy) × (before : host.State)
      × ((host.try_build (policy_calls host tester x.path paths) before).0 ≡ ok policy)
      × All (Spares q) (policy_calls host tester x.path paths)
      × (s.sandbox
          ≡ some
              (host.make_sandbox x policy
                (host.try_build (policy_calls host tester x.path paths) before).1).0)

  Jailed-KeepsOut :
      (p q : Text) (command : List Text) (options : TestOptions) (s : SandboxWithOutputFds)
      → ((c : Call) → WritesIn host tester p c → Spares q c)
      → Jailed host tester command options p s
      → KeepsOut q s
  Jailed-KeepsOut p q command options s spares (x, paths, policy, before, _, built, only, same) = (
    x,
    paths,
    policy,
    before,
    built,
    All-mono (WritesIn host tester p) (Spares q) spares (policy_calls host tester x.path paths)
        only,
    same,
  )

  -- The sandbox is one that the test with this directory makes: to compile the program, or to run it
  -- on an input.
  abbrev pub MakesFor :
      Text → Text → TestOptions → ℕ → World (library host tester) → SandboxWithOutputFds → Type 0
  MakesFor p input options limit w s =
      ((create_compilation_sandbox host tester limit p w).0 ≡ ok s)
      ⊎ ((create_test_sandbox host tester input options p w).0 ≡ ok s)

  module _ (mine theirs : Surroundings) (prints : PrintsNumbers mine.print)
      (prints' : PrintsNumbers theirs.print) where
    -- Tests do not get into each other's way. Let two tests, of one process or of two, make their
    -- temporary directories at different times, in different processes or with different random
    -- numbers, and let `%d` print numbers in decimal. The policy of every sandbox that the first
    -- test makes for a Python program, for its compilation with any time limit or for its run on any
    -- input, if the test's memory limit fits its type, makes nothing writable that is the directory of
    -- the second test, lies in it or holds it.
    pub python_sandboxes-KeepOut :
        (a b : mine.State) (c d : theirs.State) (p q input : Text) (options : TestOptions)
        (limit : ℕ) (w : World (library host tester)) (s : SandboxWithOutputFds)
        → construct_path mine a ≡ (some p, b)
        → construct_path theirs c ≡ (some q, d)
        → key mine a ≢ key theirs c
        → options.memory_limit_bytes < 2 ^ 63
        → MakesFor p input options limit w s
        → KeepsOut q s
    python_sandboxes-KeepOut a b c d p q input options limit w s e f other small made =
        let spares =
          WritesIn-Spares p q (construct_path-IsTempPath mine prints a b p e)
            (construct_path-IsTempPath theirs prints' c d q f)
            (keys-apart mine theirs prints prints' a b c d p q e f other) in
        elim made [
          | inl h ↦
              Jailed-KeepsOut p q _ _ s spares
                (create_compilation_sandbox-Jailed host tester limit p w s h)
          | inr h ↦
              Jailed-KeepsOut p q _ options s spares
                (create_test_sandbox-Jailed host tester input options p w s small h)
        ]
