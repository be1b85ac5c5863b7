-- ===== src/Results/Laws.antt =====
-- What a result says of the sandbox's run.
use code_contests.Prelude.{ℕ, ◌≡◌, refl, ◌≢◌, ◌↔◌, ◌⊎◌, inl, inr, arith, Text}
use code_contests.Status.{ok_status, error, internal, deadline_exceeded}
use code_contests.Results.{
  ProgramStatus, unknown, success, failed, timeout, FinalStatus, signaled, other, SandboxResult,
  from_compilation, from_test, status_of, sandbox_result_status,
}

-- The status of a test, by what became of the sandboxed program: success is a run that ended by
-- itself with code 0; the walltime limit and every signal count as a timeout; an exit with another
-- code and every other end of the sandbox (a violation, a failed setup) count as a failure. The
-- status is never unknown.
abbrev pub Verdict : SandboxResult → ProgramStatus → Type 0
Verdict r success = (r.final_status ≡ FinalStatus.ok) × (r.reason_code ≡ 0)
Verdict r timeout = (r.final_status ≡ FinalStatus.timeout) ⊎ (r.final_status ≡ signaled)
Verdict r failed =
    ((r.final_status ≡ FinalStatus.ok) × (r.reason_code ≢ 0))
    ⊎ ((n : ℕ) × (r.final_status ≡ other n))
Verdict r unknown = ⊥

from_test_iff_by :
    (s : FinalStatus) (c : ℕ) (t : Text) (p : ProgramStatus)
    → let r : SandboxResult = record { final_status = s; reason_code = c; text = t } in
      ((from_test r).program_status ≡ p) ↔ Verdict r p
unfolding from_test
from_test_iff_by FinalStatus.ok c t unknown = (λ h. ground arith, λ v. ground arith)
from_test_iff_by FinalStatus.ok c t success = (λ h. ground arith, λ v. ground arith)
from_test_iff_by FinalStatus.ok c t failed = (λ h. ground arith, λ v. ground arith)
from_test_iff_by FinalStatus.ok c t timeout = (λ h. ground arith, λ v. ground arith)
from_test_iff_by FinalStatus.timeout c t unknown = (λ h. cc, λ v. absurd v)
from_test_iff_by FinalStatus.timeout c t success = (λ h. cc, λ v. cc)
from_test_iff_by FinalStatus.timeout c t failed = (λ h. cc, λ v. ground arith)
from_test_iff_by FinalStatus.timeout c t timeout = (λ h. inl refl, λ v. refl)
from_test_iff_by signaled c t unknown = (λ h. cc, λ v. absurd v)
from_test_iff_by signaled c t success = (λ h. cc, λ v. cc)
from_test_iff_by signaled c t failed = (λ h. cc, λ v. ground arith)
from_test_iff_by signaled c t timeout = (λ h. inr refl, λ v. refl)
from_test_iff_by (other n) c t unknown = (λ h. cc, λ v. absurd v)
from_test_iff_by (other n) c t success = (λ h. cc, λ v. cc)
from_test_iff_by (other n) c t failed = (λ h. inr (n, refl), λ v. refl)
from_test_iff_by (other n) c t timeout = (λ h. cc, λ v. ground arith)

-- A test's status is success exactly when the program ended by itself with code 0; a timeout exactly
-- when it met the walltime limit or was ended by a signal; failed exactly when it ended with another
-- code or the sandbox ended in any other way; and never unknown.
pub from_test_iff :
    (r : SandboxResult) (p : ProgramStatus) → ((from_test r).program_status ≡ p) ↔ Verdict r p
from_test_iff r p = from_test_iff_by r.final_status r.reason_code r.text p

-- A compilation succeeds exactly when a test with the same sandbox result would; else it failed,
-- also at a timeout or a signal.
pub from_compilation_iff :
    (r : SandboxResult)
    → (((from_compilation r).program_status ≡ success) ↔ Verdict r success)
      × (((from_compilation r).program_status ≡ failed) ↔ (¬ Verdict r success))
unfolding from_compilation
from_compilation_iff r =
    ((λ h. ground arith, λ v. ground arith), (λ h v. ground arith, λ h. ground arith))

from_test-text : (r : SandboxResult) → (from_test r).sandbox_result ≡ r.text
unfolding from_test
from_test-text r = refl

-- The status of a test's result: OK for a success; for a timeout and a failure the sandbox's own
-- text under DEADLINE_EXCEEDED and INTERNAL.
pub sandbox_result_status-from_test :
    (r : SandboxResult)
    → (Verdict r success → sandbox_result_status (from_test r) ≡ ok_status)
      × (Verdict r timeout → sandbox_result_status (from_test r) ≡ error deadline_exceeded r.text)
      × (Verdict r failed → sandbox_result_status (from_test r) ≡ error internal r.text)
unfolding sandbox_result_status
sandbox_result_status-from_test r =
    (λ v. status success v, λ v. status timeout v, λ v. status failed v)
  where
    status :
        (p : ProgramStatus) → Verdict r p → sandbox_result_status (from_test r) ≡ status_of p r.text
    status p v = ground (arith, (from_test_iff r p).1 v, from_test-text r)
