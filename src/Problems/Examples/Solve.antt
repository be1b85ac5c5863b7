-- ===== src/Problems/Examples/Solve.antt =====
-- The example with a compiler that always succeeds and programs that print their input.
use code_contests.Prelude.{ℕ, ◌≡◌, refl, List, [], ◌∷◌, Text, codes, text_eq}
use code_contests.Status.{StatusOr, ok}
use code_contests.Absl.Examples.{plain_absl}
use code_contests.Results.{ExecutionResult, MultiTestResult, default_result, success}
use code_contests.Runner.Task.{Job, TestOptions}
use code_contests.Runner.Termination.{some_result}
use code_contests.Runner.{Returns}
use code_contests.Problems.{find_gregor_and_cryptography}
use code_contests.Problems.Solve.{
  Testing, Tests, default_locations, main, solve_gregor_and_cryptography,
}
use code_contests.Problems.Solved.{Ended, solve-Ended}
use code_contests.Problems.Examples.{gregor, other}

abbrev printed : Text → ExecutionResult
printed text = record default_result { program_status = success; stdout = text }

abbrev compile : ℕ → Unit {0} → StatusOr ExecutionResult × Unit {0}
compile limit w = (ok (printed []), w)

abbrev wait : Unit {0} → Unit {0}
wait w = w

abbrev echo : List Text → TestOptions → List Text → Job
echo inputs options expected = record {
  absl = plain_absl;
  options = options;
  inputs = inputs;
  expected = expected;
  compare_outputs = text_eq;
  Outcome = λ input r. r ≡ ok (printed input);
}

-- One way in which `Test` can return.
returning :
    (inputs : List Text) (options : TestOptions) (expected : List Text)
    → (r : StatusOr MultiTestResult) × Returns compile wait (echo inputs options expected) tt r
returning inputs options expected =
    some_result (echo inputs options expected) compile wait tt λ i. (ok (printed _), refl)

abbrev testing : Testing
testing = record {
  World = Unit {0};
  test = λ tester code inputs options expected w. ((returning inputs options expected).0, w);
  absl = plain_absl;
  compare_outputs = text_eq;
  compile_code = λ tester code. compile;
  pause = wait;
  Outcome = λ tester code input r. r ≡ ok (printed input);
}

tests : Tests testing
tests tester code inputs options expected w = (returning inputs options expected).1

main-no_file : main testing default_locations (λ file. []) [] tt ≡ (
  [],
  codes "The flag `valid_path` was empty and it should not be, please pass `--valid_path=...` \n",
  tt,
)
unfolding main
main-no_file = refl

main-empty_file : main testing default_locations (λ file. []) (codes "valid.riegeli") tt ≡ (
  [],
  codes "Failed: Gregor and Cryptography problem not found. Did you pass the validation dataset?\n",
  tt,
)
unfolding main solve_gregor_and_cryptography find_gregor_and_cryptography
main-empty_file = refl

solve-Ended_example :
    Ended testing default_locations
      (find_gregor_and_cryptography (other ∷ gregor ∷ []))
      tt
      (solve_gregor_and_cryptography testing default_locations (other ∷ gregor ∷ []) tt)
solve-Ended_example = solve-Ended testing default_locations (other ∷ gregor ∷ []) tt tests
