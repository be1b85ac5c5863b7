-- ===== src/Launch/Bounds.antt =====
-- The limits under which a sandbox is made.
use code_contests.Prelude.{
  Bool-cases, ap, ℕ, ◌+◌, ◌*◌, ◌/◌, ◌^◌, ◌<◌, ◌≤◌, ◌≡◌, refl, ◌∙◌, sym, ◌⊎◌, inl, inr, true, false,
  some, List, [], ◌∷◌, Text, arith, ltb,
}
use code_contests.Status.{Error, ok, err}
use code_contests.Status.Laws.{StatusOr-cases}
use code_contests.Sandbox.{SandboxWithOutputFds, construct}
use code_contests.Runner.Task.{TestOptions}
use code_contests.Launch.{
  Library, World, Executor, Paths, cpu_seconds, limits_of, executor_of, finish,
  create_sandbox_with_fds, provide_stdin,
}
use code_contests.Launch.Balance.{created, not_created}

-- A time limit in seconds for a duration in nanoseconds: at least one second, and no more than the
-- duration unless it is one.
abbrev pub IsCpuLimit : ℕ → ℕ → Type 0
IsCpuLimit d s = (1 ≤ s) × ((s ≡ 1) ⊎ (s * 10 ^ 9 ≤ d)) × (d < (s + 1) * 10 ^ 9)

cpu_seconds-IsCpuLimit : (d : ℕ) → IsCpuLimit d (cpu_seconds d)
cpu_seconds-IsCpuLimit d = elim (Bool-cases (ltb (d / 10 ^ 9) 1)) [
  | inl h ↦ rw h (ground (arith, h), inl refl, ground (arith, h))
  | inr h ↦ rw h (ground (arith, h), inr (omega arith), omega arith)
]

module _ (lib : Library) where
  -- The executor runs the command, whose first word is the path of the
  -- program, and is confined: the sandbox is entered before the command runs, the memory is the
  -- test's limit and 32 MiB (without sanitizers), no core file is written and no file above 64 MiB,
  -- and the processor time is limited.
  pub record Confined (options : TestOptions) (command : List Text) (x : Executor) : Type 0 where
    pub runs : x.argv ≡ command
    pub program : (args : List Text) × (command ≡ x.path ∷ args)
    pub before_exec : x.sandbox_before_exec ≡ true
    pub memory :
        lib.sanitizers_any ≡ false → x.limits.rlimit_as ≡ options.memory_limit_bytes + 2 ^ 25
    pub core : x.limits.rlimit_core ≡ 0
    pub fsize : x.limits.rlimit_fsize ≡ 2 ^ 26
    pub cpu : IsCpuLimit options.max_execution_duration x.limits.rlimit_cpu

  Confined-executor_of :
      (options : TestOptions) (path : Text) (args : List Text) (cwd : Text) (env : List Text)
      (mapped : List (ℕ × ℕ))
      → options.memory_limit_bytes < 2 ^ 63
      → Confined options
          (path ∷ args)
          (record (executor_of lib path (path ∷ args) options cwd env) { mapped = mapped })
  unfolding executor_of limits_of
  Confined-executor_of options path args cwd env mapped small = record {
    runs = refl;
    program = (args, refl);
    before_exec = refl;
    memory = λ plain. rw plain (omega (arith, small));
    core = refl;
    fsize = refl;
    cpu = cpu_seconds-IsCpuLimit options.max_execution_duration;
  }

  -- What a result of CreateSandboxWithFds stands for: an object around a sandbox that was made from
  -- a confined executor and from the policy that CreatePolicy gave for the command's program.
  abbrev pub Made : List Text → TestOptions → Paths → SandboxWithOutputFds → Type 0
  Made command options paths s =
      (x : Executor) × (policy : lib.Policy) × (before : lib.State) × Confined options command x
      × ((lib.create_policy x.path paths before).0 ≡ ok policy)
      × (s.sandbox ≡ some (lib.make_sandbox x policy (lib.create_policy x.path paths before).1).0)

  pub finish_ok :
      (x : Executor) (paths : Paths) (o e : ℕ) (w : World lib) (policy : lib.Policy)
      → (lib.create_policy x.path paths w.state).0 ≡ ok policy
      → (finish lib x paths o e w).0
        ≡ ok (
            construct
              (some (lib.make_sandbox x policy (lib.create_policy x.path paths w.state).1).0)
              (some o)
              (some e))
  unfolding finish
  finish_ok x paths o e w policy k = rw (finish, k) refl

  pub finish_err :
      (x : Executor) (paths : Paths) (o e : ℕ) (w : World lib) (y : Error)
      → (lib.create_policy x.path paths w.state).0 ≡ err y
      → (finish lib x paths o e w).0 ≡ err y
  unfolding finish
  finish_err x paths o e w y k = rw (finish, k) refl

  Made-finish :
      (options : TestOptions) (command : List Text) (x : Executor) (paths : Paths) (o e : ℕ)
      (w : World lib) (s : SandboxWithOutputFds)
      → Confined options command x
      → (finish lib x paths o e w).0 ≡ ok s
      → Made command options paths s
  unfolding finish construct
  Made-finish options command x paths o e w s c h =
      elim (StatusOr-cases (lib.create_policy x.path paths w.state).0) [
        | inl (policy, k) ↦
            (x, policy, w.state, c, k, cc (sym (finish_ok x paths o e w policy k) ∙ h))
        | inr (y, k) ↦ absurd (cc (sym (finish_err x paths o e w y k) ∙ h))
      ]

  -- Every sandbox that CreateSandboxWithFds returns runs the command that it was given, confined, and
  -- under the policy for that command, if the memory limit fits its type.
  pub create_sandbox_with_fds-Made :
      (command : List Text) (stdin_data : Text) (paths : Paths) (options : TestOptions) (cwd : Text)
      (env : List Text) (w : World lib) (s : SandboxWithOutputFds)
      → options.memory_limit_bytes < 2 ^ 63
      → (create_sandbox_with_fds lib command stdin_data paths options cwd env w).0 ≡ ok s
      → Made command options paths s
  unfolding create_sandbox_with_fds
  create_sandbox_with_fds-Made [] stdin_data paths options cwd env w s small h = cc
  create_sandbox_with_fds-Made (path ∷ args) stdin_data paths options cwd env w s small h =
      elim (StatusOr-cases (provide_stdin lib stdin_data w).0) [
        | inl (mapped, k) ↦
            Made-finish options (path ∷ args) _ paths _ _ _ s
              (Confined-executor_of options path args cwd env mapped small)
              (ap (λ r. r.0)
                  (sym (created lib path args stdin_data paths options cwd env w mapped k))
                ∙ h)
        | inr (y, k) ↦ absurd (
            cc (
              sym (ap (λ r. r.0) (not_created lib path args stdin_data paths options cwd env w y k))
              ∙ h))
      ]
