-- ===== src/Results.antt =====
-- `ExecutionResult`, `MultiTestResult` and their makers, of execution/tester_sandboxer.{h,cc}.
pub mod Laws
pub mod Print
mod Examples
use code_contests.Prelude.{
  ℕ, Bool, true, false, Option, none, List, [], ◌==◌, ◌&&◌, ◌||◌, not, if◌then◌else◌, Text, codes,
}
use code_contests.Prelude.Int.{ℤ, pos}
use code_contests.Status.{
  Status, ok_status, error, failed_precondition, deadline_exceeded, internal,
}

pub data ProgramStatus : Type 0 where
  unknown success failed timeout : ProgramStatus

-- A duration counts nanoseconds. It can be negative, since the clock can be set back, and is finite.
pub record ExecutionResult : Type 0 where
  pub program_status : ProgramStatus
  pub program_hash : ℕ  -- uint64_t
  pub stdout : Text
  pub stderr : Text
  pub execution_duration : ℤ
  pub sandbox_result : Text
  pub passed : Option Bool

-- The value that the fields' initialisers give.
abbrev pub default_result : ExecutionResult
default_result = record {
  program_status = unknown;
  program_hash = 0;
  stdout = [];
  stderr = [];
  execution_duration = pos 0;
  sandbox_result = [];
  passed = none;
}

pub record MultiTestResult : Type 0 where
  pub compilation_result : ExecutionResult
  pub test_results : List ExecutionResult

-- sandbox2::Result::StatusEnum: the values that the code names, and all others.
pub data FinalStatus : Type 0 where
  ok timeout signaled : FinalStatus
  other : ℕ → FinalStatus

-- What the code reads of a sandbox2::Result; `text` is its ToString().
pub record SandboxResult : Type 0 where
  pub final_status : FinalStatus
  pub reason_code : ℕ
  pub text : Text

abbrev pub is_success : ProgramStatus → Bool
is_success success = true
is_success _ = false

abbrev pub is_status_ok : FinalStatus → Bool
is_status_ok FinalStatus.ok = true
is_status_ok _ = false

abbrev pub is_status_timeout : FinalStatus → Bool
is_status_timeout FinalStatus.timeout = true
is_status_timeout _ = false

abbrev pub is_status_signaled : FinalStatus → Bool
is_status_signaled signaled = true
is_status_signaled _ = false

-- ExecutionResultFromCompilationSandboxResult
unfoldable pub from_compilation : SandboxResult → ExecutionResult
from_compilation r = record default_result {
  program_status =
      if not (is_status_ok r.final_status) || not (r.reason_code == 0) then failed else success;
  sandbox_result = r.text;
}

-- ExecutionResultFromTestSandboxResult
unfoldable pub from_test : SandboxResult → ExecutionResult
from_test r = record default_result {
  program_status =
      if is_status_timeout r.final_status
      then timeout
      else if is_status_ok r.final_status && r.reason_code == 0
      then success
      else if is_status_signaled r.final_status
      then timeout
      else failed;
  sandbox_result = r.text;
}

-- `SandboxResultStatus`, by its switch on the program's status.
unfoldable pub status_of : ProgramStatus → Text → Status
status_of unknown text = error failed_precondition (codes "program_status is unknown.")
status_of success text = ok_status
status_of timeout text = error deadline_exceeded text
status_of failed text = error internal text

unfoldable pub sandbox_result_status : ExecutionResult → Status
unfolding status_of
sandbox_result_status r = status_of r.program_status r.sandbox_result
