-- ===== src/Problems/Examples.antt =====
-- A problem with two tests, the search for it, and its reports.
mod Solve
use code_contests.Prelude.{
  ℕ, ◌<◌, ◌≡◌, refl, ◌↔◌, true, false, some, [], ◌∷◌, length, All, codes, arith, text_eq,
}
use code_contests.Status.{ok, ok_status}
use code_contests.Absl.Examples.{plain_absl}
use code_contests.Results.{MultiTestResult, default_result, success, is_success}
use code_contests.Results.Print.{decimal, digits_loop}
use code_contests.Runner.{check_arguments}
use code_contests.Runner.Task.{Job, default_options}
use code_contests.Problems.{
  ContestProblem, resize, get_inputs, get_outputs, find_gregor_and_cryptography,
  gregor_and_cryptography, report_results, report_tests, print_names, print_names_main,
  print_problems,
}
use code_contests.Problems.Tests.{
  all_tests, Paired, get_inputs-get_outputs, check_arguments-get_inputs,
}
use code_contests.Problems.Search.{First, OtherName, not_there, find_gregor_and_cryptography_iff}
use code_contests.Problems.Report.{verdicts, report_results-verdicts}

abbrev pub gregor : ContestProblem
gregor = record {
  name = gregor_and_cryptography;
  public_tests = record { input = codes "17"; output = codes "2 16" } ∷ [];
  private_tests = [];
  generated_tests = record { input = codes "5"; output = codes "2 4" } ∷ [];
}

abbrev pub other : ContestProblem
other = record gregor { name = codes "1549_B. Gregor and the Pawn Game" }

inputs-gregor : get_inputs gregor 3 ≡ codes "17" ∷ codes "5" ∷ [] ∷ []
unfolding get_inputs resize
inputs-gregor = refl

outputs-gregor : get_outputs gregor 1 ≡ codes "2 16" ∷ []
unfolding get_outputs resize
outputs-gregor = refl

find-gregor : find_gregor_and_cryptography (other ∷ gregor ∷ []) ≡ ok gregor
unfolding find_gregor_and_cryptography text_eq
find-gregor = refl

names-gregor : print_names ((gregor ∷ []) ∷ [] ∷ []) ≡ codes "1549_A. Gregor and Cryptography\n"
unfolding print_names print_problems
names-gregor = refl

names-of_arguments :
    print_names_main (λ file. gregor ∷ []) (codes "print_names" ∷ codes "valid" ∷ [])
    ≡ some (codes "1549_A. Gregor and Cryptography\n")
unfolding print_names_main print_names print_problems
names-of_arguments = refl

abbrev run : MultiTestResult
run = record {
  compilation_result = record default_result { program_status = success };
  test_results =
      record default_result { passed = some true }
      ∷ record default_result { passed = some false }
      ∷ default_result
      ∷ [];
}

report-run :
    report_results run
    ≡ codes "Compilation succeeded\nTest 0 passed.\nTest 1 failed.\nTest 2 did not run.\n"
unfolding report_results report_tests decimal digits_loop
report-run = refl

get_inputs-get_outputs_example :
    (length (get_inputs gregor 3) ≡ 3)
    × (length (get_outputs gregor 3) ≡ 3)
    × ((i : ℕ) → i < 3 → Paired (all_tests gregor) (get_inputs gregor 3) (get_outputs gregor 3) i)
get_inputs-get_outputs_example = get_inputs-get_outputs gregor 3

abbrev job : Job
job = record {
  absl = plain_absl;
  options = record default_options { num_threads = 4; stop_on_first_failure = true };
  inputs = [];
  expected = [];
  compare_outputs = text_eq;
  Outcome = λ t r. Unit;
}

gregor_accepted :
    check_arguments (record job { inputs = get_inputs gregor 10; expected = get_outputs gregor 10 })
    ≡ ok_status
gregor_accepted = check_arguments-get_inputs job gregor 10 (omega arith)

find_gregor-First :
    ((p : ContestProblem)
      → (find_gregor_and_cryptography (other ∷ gregor ∷ []) ≡ ok p) ↔ First (other ∷ gregor ∷ []) p)
    × ((find_gregor_and_cryptography (other ∷ gregor ∷ []) ≡ not_there)
        ↔ All OtherName (other ∷ gregor ∷ []))
find_gregor-First = find_gregor_and_cryptography_iff (other ∷ gregor ∷ [])

-- The same verdicts, with another hash and another output.
abbrev rerun : MultiTestResult
rerun = record run {
  compilation_result = record run.compilation_result { program_hash = 5; stdout = codes "done" };
}

report_results-verdicts_example :
    (is_success run.compilation_result.program_status
      ≡ is_success rerun.compilation_result.program_status)
    × (verdicts run.test_results ≡ verdicts rerun.test_results)
unfolding report_results report_tests decimal digits_loop
report_results-verdicts_example = report_results-verdicts run rerun refl
