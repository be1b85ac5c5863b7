-- ===== src/Problems.antt =====
-- The data of a problem (contest_problem.proto) and what execution/solve_example.cc does with it,
-- with the printer of names of print_names.cc. A data set is the list of the records that the
-- reader gives. Fields that the programs do not read are left out.
pub mod Tests
pub mod Search
pub mod Report
pub mod Solve
pub mod Solved
mod Examples
use code_contests.Prelude.{
  ℕ, zero, suc, ◌+◌, true, false, Bool, Option, none, some, List, [], ◌∷◌, ◌++◌, map, Text, codes,
  text_eq, if◌then◌else◌,
}
use code_contests.Status.{StatusOr, ok, error, not_found}
use code_contests.Results.{ExecutionResult, MultiTestResult, is_success}
use code_contests.Results.Print.{decimal}

-- ContestProblem.Test
pub record TestCase : Type 0 where
  pub input : Text
  pub output : Text

pub record ContestProblem : Type 0 where
  pub name : Text
  pub public_tests : List TestCase
  pub private_tests : List TestCase
  pub generated_tests : List TestCase

-- `resize` of a vector of texts: the first ones are kept, and empty texts are appended.
unfoldable pub resize : List Text → ℕ → List Text
resize xs zero = []
resize [] (suc n) = [] ∷ resize [] n
resize (x ∷ xs) (suc n) = x ∷ resize xs n

-- The three loops of GetInputs: each appends to what the one before has gathered.
unfoldable pub get_inputs : ContestProblem → ℕ → List Text
unfolding resize
get_inputs problem max_size =
    resize
      ((map (λ t. t.input) problem.public_tests ++ map (λ t. t.input) problem.private_tests)
        ++ map (λ t. t.input) problem.generated_tests)
      max_size

unfoldable pub get_outputs : ContestProblem → ℕ → List Text
unfolding resize
get_outputs problem max_size =
    resize
      ((map (λ t. t.output) problem.public_tests ++ map (λ t. t.output) problem.private_tests)
        ++ map (λ t. t.output) problem.generated_tests)
      max_size

abbrev pub gregor_and_cryptography : Text
gregor_and_cryptography = codes "1549_A. Gregor and Cryptography"

-- FindGregorAndCryptography, on the records that the reader gives.
unfoldable pub find_gregor_and_cryptography : List ContestProblem → StatusOr ContestProblem
find_gregor_and_cryptography [] =
    error not_found
      (codes "Gregor and Cryptography problem not found. Did you pass the validation dataset?")
find_gregor_and_cryptography (problem ∷ rest) =
    let later = find_gregor_and_cryptography rest in
    if text_eq problem.name gregor_and_cryptography then ok problem else later

-- The line of ReportResults on one test.
abbrev pub verdict_text : Option Bool → Text
verdict_text none = codes " did not run.\n"
verdict_text (some true) = codes " passed.\n"
verdict_text (some false) = codes " failed.\n"

unfoldable pub report_tests : ℕ → List ExecutionResult → Text
unfolding decimal
report_tests i [] = []
report_tests i (r ∷ rs) =
    codes "Test " ++ (decimal i ++ (verdict_text r.passed ++ report_tests (i + 1) rs))

unfoldable pub report_results : MultiTestResult → Text
unfolding report_tests
report_results m =
    codes "Compilation "
    ++ ((if is_success m.compilation_result.program_status
          then codes "succeeded"
          else codes "failed")
        ++ (codes "\n" ++ report_tests 0 m.test_results))

-- PrintNames, on the records of each file in turn.
unfoldable pub print_problems : List ContestProblem → Text
print_problems [] = []
print_problems (problem ∷ rest) = problem.name ++ (codes "\n" ++ print_problems rest)

unfoldable pub print_names : List (List ContestProblem) → Text
unfolding print_problems
print_names [] = []
print_names (file ∷ files) = print_problems file ++ print_names files

-- The main function of print_names.cc on its arguments, the program's name first. Without any,
-- `reserve(argc - 1)` throws, which is `none`. `records` gives the data set of a file.
unfoldable pub print_names_main : (Text → List ContestProblem) → List Text → Option Text
unfolding print_names
print_names_main records [] = none
print_names_main records (program ∷ filenames) = some (print_names (map records filenames))
