-- ===== src/Results/Examples.antt =====
-- Sandbox results and what is made of them.
use code_contests.Prelude.{◌≡◌, refl, ◌↔◌, ◌++◌, Text, none, some, false, [], ◌∷◌, codes}
use code_contests.Status.{ok_status, error, internal, deadline_exceeded}
use code_contests.Prelude.Int.{pos_part}
use code_contests.Results.{
  success, failed, timeout, signaled, SandboxResult, default_result, from_compilation, from_test,
  sandbox_result_status,
}
use code_contests.Results.Laws.{Verdict, from_compilation_iff, sandbox_result_status-from_test}
use code_contests.Results.Print.{decimal, print_result, print_result-passed}

abbrev killed : SandboxResult
killed = record { final_status = signaled; reason_code = 24; text = codes "SIGXCPU" }

from_compilation-killed :
    (((from_compilation killed).program_status ≡ success) ↔ Verdict killed success)
    × (((from_compilation killed).program_status ≡ failed) ↔ (¬ Verdict killed success))
from_compilation-killed = from_compilation_iff killed

killed_status :
    (Verdict killed success → sandbox_result_status (from_test killed) ≡ ok_status)
    × (Verdict killed timeout
        → sandbox_result_status (from_test killed) ≡ error deadline_exceeded killed.text)
    × (Verdict killed failed
        → sandbox_result_status (from_test killed) ≡ error internal killed.text)
killed_status = sandbox_result_status-from_test killed

print_decimal : decimal 1207 ≡ codes "1207"
unfolding decimal
print_decimal = refl

newline : codes "\n" ≡ 10 ∷ []
newline = refl

print_result-passed_example :
    (before : Text) × (print_result
        (λ d. decimal (pos_part d))
        (record default_result { passed = some false })
      ≡ before ++ codes "  passed: true\n")
    × (print_result (λ d. decimal (pos_part d)) (record default_result { passed = none })
        ≡ before ++ codes "  passed: false\n")
print_result-passed_example = print_result-passed (λ d. decimal (pos_part d)) default_result false
