-- ===== src/Problems/Solve.antt =====
-- `SolveGregorAndCryptography` and `main` of execution/solve_example.cc, with the flags of
-- execution/py_locations.cc. What they print is a text; `TesterSandboxer::Test` is a parameter.
use code_contests.Prelude.{ℕ, true, Bool, List, [], ◌∷◌, ◌++◌, Text, codes}
use code_contests.Status.{StatusOr, Status, ok, err, ok_status}
use code_contests.Absl.{Absl}
use code_contests.Results.{ExecutionResult, MultiTestResult}
use code_contests.Runner.Task.{Job, TestOptions, default_options}
use code_contests.Runner.{Returns}
use code_contests.Python.{PyTesterSandboxer, py3_tester}
use code_contests.Problems.{
  ContestProblem, find_gregor_and_cryptography, get_inputs, get_outputs, report_results,
}

abbrev pub good_solution : Text
good_solution =
    codes "\nt = int(input())\nwhile t:\n  n = int(input())\n  print(2, n-1)\n"
    ++ (codes "  t -= 1\n")

abbrev pub bad_solution : Text
bad_solution =
    codes "\nt = int(input())\nwhile t:\n  n = int(input())\n  if n > 20:\n"
    ++ (codes "    print(1, 1)\n  else:\n    print(2, n-1)\n  t -= 1\n")

abbrev pub invalid_solution : Text
invalid_solution = codes ")"

-- What is printed before each of the three runs.
abbrev pub introduction : Text
introduction =
    codes "We will try to solve \"Gregor and Cryptography\":\n"
    ++ (codes "https://codeforces.com/problemset/problem/1549/A\n\nWe will run:\n"
        ++ (codes "  1. A program that does not compile.\n"
            ++ (codes
                  "  2. A program that runs successfully, but gives the wrong answer sometimes.\n"
                ++ (codes "  3. A correct solution.\n\n"
                    ++ (codes
                          "--------------------------------------------------------------------------------\n"
                        ++ (codes "An invalid program is reported as not compiling:\n\n"))))))

abbrev pub bad_heading : Text
bad_heading =
    codes "\n"
    ++ (codes "--------------------------------------------------------------------------------\n"
        ++ (codes "The bad solution passes a few tests but then fails.\n"
            ++ (codes
                  "Because we set stop_on_first_failure to True, we stop once we see a failure.\n"
                ++ (codes
                      "We are running on 4 threads, so it's possible that more than one failure occurs\n"
                    ++ (codes "before all threads stop.\n\n")))))

abbrev pub good_heading : Text
good_heading =
    codes "\n"
    ++ (codes "--------------------------------------------------------------------------------\n"
        ++ (codes "The good solution passes all tests.\n\n"))

-- The values of the flags, which the four functions of py_locations.cc give.
pub record Locations : Type 0 where
  pub python3_path : Text
  pub python3_library_paths : List Text
  pub python2_path : Text
  pub python2_library_paths : List Text

abbrev pub default_locations : Locations
default_locations = record {
  python3_path = codes "/usr/bin/python3.9";
  python3_library_paths = codes "/usr/lib/python3.9" ∷ [];
  python2_path = codes "/usr/bin/python2.7";
  python2_library_paths = codes "/usr/lib/python2.7" ∷ [];
}

abbrev pub example_options : TestOptions
example_options = record default_options { num_threads = 4; stop_on_first_failure = true }

-- `Test`, over a world that a run changes, with the comparison, the compiler, the pause and the runs
-- that it uses.
pub record Testing : Type 1 where
  pub World : Type 0
  pub test :
      PyTesterSandboxer
      → Text
      → List Text
      → TestOptions
      → List Text
      → World
      → StatusOr MultiTestResult × World
  pub absl : Absl
  pub compare_outputs : Text → Text → Bool
  pub compile_code : PyTesterSandboxer → Text → ℕ → World → StatusOr ExecutionResult × World
  pub pause : World → World
  pub Outcome : PyTesterSandboxer → Text → Text → StatusOr ExecutionResult → Type 0

module _ (testing : Testing) where
  open testing use {World, test, absl, compare_outputs, compile_code, pause, Outcome}

  abbrev pub job_for : PyTesterSandboxer → Text → List Text → TestOptions → List Text → Job
  job_for tester code inputs options expected = record {
    absl = absl;
    options = options;
    inputs = inputs;
    expected = expected;
    compare_outputs = compare_outputs;
    Outcome = Outcome tester code;
  }

  -- `test` returns what `Test` can return.
  abbrev pub Tests : Type 1
  Tests =
      (tester : PyTesterSandboxer) (code : Text) (inputs : List Text) (options : TestOptions)
      (expected : List Text) (w : World)
      → Returns (compile_code tester code) pause (job_for tester code inputs options expected) w
          (test tester code inputs options expected w).0

  -- What is left of the function: its status, what it prints, and the world afterwards.
  abbrev pub Rest : Type 0
  Rest = World → Status × Text × World

  abbrev pub with_text : Text → Status × Text × World → Status × Text × World
  with_text before (s, text, w) = (s, before ++ text, w)

  -- A result of `Test` with its report, and the rest; an error ends the function.
  abbrev pub report_then : Rest → StatusOr MultiTestResult × World → Status × Text × World
  report_then rest (err e, w) = (err e, [], w)
  report_then rest (ok m, w) = with_text (report_results m) (rest w)

  -- A heading, a test run, and its report.
  unfoldable pub report_part : Text → (World → StatusOr MultiTestResult × World) → Rest → Rest
  report_part heading run rest w = with_text heading (report_then rest (run w))

  abbrev pub run_on : Locations → ContestProblem → Text → World → StatusOr MultiTestResult × World
  run_on locations problem code =
      test (py3_tester locations.python3_path locations.python3_library_paths) code
        (get_inputs problem 10) example_options (get_outputs problem 10)

  -- The three parts for the problem.
  unfoldable pub three_parts : Locations → ContestProblem → Rest
  unfolding report_part
  three_parts locations problem =
      report_part introduction (run_on locations problem invalid_solution) (
        report_part bad_heading (run_on locations problem bad_solution) (
          report_part good_heading (run_on locations problem good_solution)
            (λ w. (ok_status, [], w))))

  abbrev pub parts_for : Locations → StatusOr ContestProblem → Rest
  parts_for locations (err e) w = (err e, [], w)
  parts_for locations (ok problem) w = three_parts locations problem w

  -- `SolveGregorAndCryptography`, on the records of the data set.
  unfoldable pub solve_gregor_and_cryptography : Locations → List ContestProblem → Rest
  solve_gregor_and_cryptography locations records =
      parts_for locations (find_gregor_and_cryptography records)

  abbrev failure_text : Status → Text
  failure_text (ok u) = []
  failure_text (err e) = codes "Failed: " ++ (e.message ++ codes "\n")

  -- What `main` writes to the standard output and to the standard error. `records` gives the data
  -- set of a file.
  unfoldable pub main :
      Locations → (Text → List ContestProblem) → Text → World → Text × Text × World
  unfolding solve_gregor_and_cryptography
  main locations records [] w = (
    [],
    codes "The flag `valid_path` was empty and it should not be, please pass `--valid_path=...` \n",
    w,
  )
  main locations records (c ∷ filename) w =
      let (s, text, w') = solve_gregor_and_cryptography locations (records (c ∷ filename)) w in
      (text, failure_text s, w')
