-- ===== src/Host.antt =====
-- What the testers take from the libraries and from the system, over one state: the sandbox, its
-- policy builder, buffers and descriptors, the clock and the file system. The constants and flags of
-- the system's headers are values here too.
pub mod Examples
use code_contests.Prelude.{ℕ, ◌≡◌, Bool, Option, some, List, Text}
use code_contests.Status.{StatusOr}
use code_contests.Results.{SandboxResult}
use code_contests.Policy.{Call, get_current_working_directory}
use code_contests.Launch.{Executor}

pub record Host : Type 1 where
  pub State : Type 0
  pub Policy : Type 0
  -- the sandbox library
  pub sanitizers_any : Bool
  pub create_with_size : ℕ → State → StatusOr ℕ × State
  pub copy_data : ℕ → Text → State → State
  pub destroy_buffer : ℕ → State → State
  pub receive_fd : ℕ → State → ℕ × State
  pub try_build : List Call → State → StatusOr Policy × State
  pub make_sandbox : Executor → Policy → State → ℕ × State
  pub run_async : ℕ → State → Bool × State
  pub set_walltime_limit : ℕ → ℕ → State → State
  pub await_result : ℕ → State → SandboxResult × State
  -- the system
  pub dup : ℕ → State → ℕ × State
  pub now : State → ℕ × State
  pub environ : List Text
  pub getcwd : ℕ → Option Text
  -- Where there is none, CHECK ends the process.
  pub working_directory : Text
  pub is_current : get_current_working_directory getcwd ≡ some working_directory
  pub rlim64_infinity : ℕ
  pub defined : Text → Bool  -- whether the headers have the number of a system call
  pub clone_flags : ℕ
  pub pr_set_name : ℕ
  pub madv_free : ℕ
  -- the file system; `none` stands for an exception, and `entries` has whole paths
  pub write_file : Text → Text → State → State
  pub exists : Text → State → Option Bool
  pub entries : Text → State → Option (List Text)
  pub copy_file : Text → Text → State → Option State
  pub contents : Text → State → Text
  -- farmhash::Fingerprint64
  pub fingerprint : Text → ℕ
