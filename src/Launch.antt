-- ===== src/Launch.antt =====
-- `TesterSandboxer::CreateSandboxWithFds` of execution/tester_sandboxer.cc: a sandbox for a command,
-- with its limits, its standard input and the descriptors of its outputs.
pub mod Bounds
pub mod Balance
pub mod Outputs
mod Examples
use code_contests.Prelude.{
  ℕ, zero, suc, ◌+◌, ◌*◌, ◌/◌, ◌%◌, ◌^◌, Bool, true, false, Option, none, some, List, [], ◌∷◌,
  length, ltb, if◌then◌else◌, Text, codes,
}
use code_contests.Status.{StatusOr, ok, err, error, invalid_argument}
use code_contests.Sandbox.{Os, close, SandboxWithOutputFds, construct}
use code_contests.Runner.Task.{TestOptions}

pub record Limits : Type 0 where
  pub rlimit_as : ℕ  -- uint64_t, as the others
  pub rlimit_core : ℕ
  pub rlimit_fsize : ℕ
  pub rlimit_cpu : ℕ

-- What the function sets in a sandbox2::Executor. In `mapped` are the pairs given to MapFd.
pub record Executor : Type 0 where
  pub path : Text
  pub argv : List Text
  pub envp : List Text
  pub cwd : Option Text
  pub sandbox_before_exec : Bool
  pub limits : Limits
  pub mapped : List (ℕ × ℕ)

-- The files and directories for CreatePolicy.
pub record Paths : Type 0 where
  pub ro_files : List Text
  pub ro_dirs : List Text
  pub rw_dirs : List Text

-- The libraries and the kernel, over a state of their own: buffers, which are named by their
-- descriptor, `dup`, the descriptors that an executor gives, and the virtual CreatePolicy.
pub record Library : Type 1 where
  pub State : Type 0
  pub Policy : Type 0
  pub sanitizers_any : Bool
  pub rlim64_infinity : ℕ
  pub create_with_size : ℕ → State → StatusOr ℕ × State
  pub copy_data : ℕ → Text → State → State
  pub dup : ℕ → State → ℕ × State
  pub destroy_buffer : ℕ → State → State
  pub receive_fd : ℕ → State → ℕ × State
  pub create_policy : Text → Paths → State → StatusOr Policy × State
  pub make_sandbox : Executor → Policy → State → ℕ × State

abbrev pub mebibytes : ℕ → ℕ
mebibytes n = n * 2 ^ 20

-- std::max<int64_t>(1, absl::ToInt64Seconds(d)), for a `d` in nanoseconds
abbrev pub cpu_seconds : ℕ → ℕ
cpu_seconds d = let s = d / 10 ^ 9 in if ltb s 1 then 1 else s

module _ (lib : Library) where
  open lib use {State}

  -- `received` only records the descriptors that ReceiveFd gave, the last one first.
  pub record World : Type 0 where
    pub state : State
    pub os : Os
    pub received : List ℕ

  unfoldable pub limits_of : TestOptions → Limits
  limits_of options = record {
    rlimit_as =
        if lib.sanitizers_any
        then lib.rlim64_infinity
        else (options.memory_limit_bytes + mebibytes 32) % 2 ^ 64;
    rlimit_core = 0;
    rlimit_fsize = mebibytes 64;
    rlimit_cpu = cpu_seconds options.max_execution_duration;
  }

  abbrev cwd_of : Text → Option Text
  cwd_of [] = none
  cwd_of (c ∷ s) = some (c ∷ s)

  -- The executor before the standard input is set up.
  unfoldable pub executor_of : Text → List Text → TestOptions → Text → List Text → Executor
  unfolding limits_of
  executor_of path command options cwd env = record {
    path = path;
    argv = command;
    envp = env;
    cwd = cwd_of cwd;
    sandbox_before_exec = true;
    limits = limits_of options;
    mapped = [];
  }

  unfoldable pub receive : ℕ → World → ℕ × World
  receive fd w =
      let (mine, state) = lib.receive_fd fd w.state in
      (mine, record w { state = state; received = mine ∷ w.received })

  -- The descriptors that are mapped, or the error of the buffer.
  unfoldable pub provide_stdin : Text → World → StatusOr (List (ℕ × ℕ)) × World
  unfolding receive
  provide_stdin [] w = let (fd, w') = receive 0 w in (ok [], record w' { os = close fd w'.os })
  provide_stdin (c ∷ s) w =
      let (buffer_or, state) = lib.create_with_size (length (c ∷ s)) w.state in
      elim buffer_or [
        | err e ↦ (err e, record w { state = state })
        | ok buffer ↦
            let (copy, state') = lib.dup buffer (lib.copy_data buffer (c ∷ s) state) in
            (ok ((copy, 0) ∷ []), record w { state = lib.destroy_buffer buffer state' })
      ]

  -- From the policy on, with the descriptors of the outputs.
  unfoldable pub finish : Executor → Paths → ℕ → ℕ → World → StatusOr SandboxWithOutputFds × World
  finish executor paths stdout_fd stderr_fd w =
      let (policy_or, state) = lib.create_policy executor.path paths w.state in
      elim policy_or [
        | err e ↦ (err e, record w { state = state })
        | ok policy ↦
            let (sandbox, state') = lib.make_sandbox executor policy state in
            (
              ok (construct (some sandbox) (some stdout_fd) (some stderr_fd)),
              record w { state = state' },
            )
      ]

  unfoldable pub create_sandbox_with_fds :
      List Text
      → Text
      → Paths
      → TestOptions
      → Text
      → List Text
      → World
      → StatusOr SandboxWithOutputFds × World
  unfolding executor_of provide_stdin receive finish
  create_sandbox_with_fds [] stdin_data paths options cwd env w =
      (error invalid_argument (codes "Empty command provided"), w)
  create_sandbox_with_fds (path ∷ args) stdin_data paths options cwd env w =
      let executor = executor_of path (path ∷ args) options cwd env in
      let (mapped_or, w₁) = provide_stdin stdin_data w in
      elim mapped_or [
        | err e ↦ (err e, w₁)
        | ok mapped ↦
            let (stdout_fd, w₂) = receive 1 w₁ in
            let (stderr_fd, w₃) = receive 2 w₂ in
            finish (record executor { mapped = mapped }) paths stdout_fd stderr_fd w₃
      ]
