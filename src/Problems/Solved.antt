-- ===== src/Problems/Solved.antt =====
-- What the example prints, and what stands behind its reports.
use code_contests.Prelude.{
  ap, ℕ, ◌<◌, ◌≡◌, refl, ◌∙◌, subst, List, [], ◌∷◌, ◌++◌, length, Text, arith,
}
use code_contests.Status.{StatusOr, Status, Error, ok, err, ok_status}
use code_contests.Results.{MultiTestResult, success}
use code_contests.Runner.Task.{Job}
use code_contests.Runner.Correctness.{Accounted, test_accounts}
use code_contests.Runner.{Returns}
use code_contests.Python.{py3_tester}
use code_contests.Problems.{
  ContestProblem, find_gregor_and_cryptography, get_inputs, get_outputs, report_results,
}
use code_contests.Problems.Tests.{get_inputs-get_outputs}
use code_contests.Problems.Solve.{
  good_solution, bad_solution, invalid_solution, introduction, bad_heading, good_heading, Locations,
  Testing, job_for, Tests, Rest, with_text, report_then, report_part, example_options, run_on,
  three_parts, parts_for, solve_gregor_and_cryptography,
}

module _ (testing : Testing) (locations : Locations) where
  open testing use {World}

  -- The heading and the program of a part.
  abbrev Part : Type 0
  Part = Text × Text

  abbrev pub parts : List Part
  parts =
      (introduction, invalid_solution)
      ∷ (bad_heading, bad_solution)
      ∷ (good_heading, good_solution)
      ∷ []

  module _ (problem : ContestProblem) where
    abbrev pub example_job : Text → Job
    example_job code =
        job_for testing (py3_tester locations.python3_path locations.python3_library_paths) code
          (get_inputs problem 10) example_options (get_outputs problem 10)

    -- If the program compiled, there is a result for each input, and it is accounted for.
    abbrev pub Sound : Text → MultiTestResult → Type 0
    Sound code m =
        m.compilation_result.program_status ≡ success
        → (length m.test_results ≡ 10)
          × ((i : ℕ) → i < 10 → Accounted (example_job code) m.test_results i)

    -- How the example goes on with the parts that are left: its status, and what it prints.
    pub data Story : List Part → World → Status → Text → Type 0 where
      ends : {w : World} → Story [] w ok_status []
      fails :
          {heading code : Text} {ps : List Part} {w : World} (e : Error)
          → (run_on testing locations problem code w).0 ≡ err e
          → Story ((heading, code) ∷ ps) w (err e) (heading ++ [])
      reports :
          {heading code text : Text} {ps : List Part} {w w' : World} {s : Status}
          (m : MultiTestResult)
          → run_on testing locations problem code w ≡ (ok m, w')
          → Sound code m
          → Story ps w' s text
          → Story ((heading, code) ∷ ps) w s (heading ++ (report_results m ++ text))

    -- A story of the rest of the function.
    abbrev Told : List Part → World → Status × Text × World → Type 0
    Told ps w (s, text, w') = Story ps w s text

    Sound-run_on :
        Tests testing
        → (code : Text) (w : World) (m : MultiTestResult)
        → (run_on testing locations problem code w).0 ≡ ok m
        → Sound code m
    Sound-run_on tests code w m e good =
        let tester = py3_tester locations.python3_path locations.python3_library_paths in
        let inputs_are = (get_inputs-get_outputs problem 10).0 in
        let (len, each) =
          test_accounts (testing.compile_code tester code) testing.pause (example_job code) w m
            (omega arith)
            (subst (Returns (testing.compile_code tester code) testing.pause (example_job code) w) e
              (tests tester code (get_inputs problem 10) example_options (get_outputs problem 10)
                w))
            good in
        (len ∙ inputs_are, λ i h. each i (omega (arith, h, inputs_are)))

    Told-report_then :
        (heading code : Text) (ps : List Part) (rest : Rest testing) (w : World)
        (r : StatusOr MultiTestResult × World)
        → run_on testing locations problem code w ≡ r
        → ((m : MultiTestResult) → r.0 ≡ ok m → Sound code m)
        → ((w' : World) → Told ps w' (rest w'))
        → Told ((heading, code) ∷ ps) w (with_text testing heading (report_then testing rest r))
    Told-report_then heading code ps rest w (err e, w') run sound told = fails e (ap (λ r. r.0) run)
    Told-report_then heading code ps rest w (ok m, w') run sound told =
        reports m run (sound m refl) (told w')

    Told-report_part :
        (heading code : Text) (ps : List Part) (rest : Rest testing)
        → Tests testing
        → ((w' : World) → Told ps w' (rest w'))
        → (w : World)
        → Told
            ((heading, code) ∷ ps)
            w
            (report_part testing heading (run_on testing locations problem code) rest w)
    unfolding report_part
    Told-report_part heading code ps rest tests told w =
        Told-report_then heading code ps rest w (run_on testing locations problem code w) refl
          (Sound-run_on tests code w) told

    Told-three_parts :
        Tests testing → (w : World) → Told parts w (three_parts testing locations problem w)
    unfolding three_parts
    Told-three_parts tests = Told-report_part introduction invalid_solution _ _ tests (
        Told-report_part bad_heading bad_solution _ _ tests
          (Told-report_part good_heading good_solution _ _ tests λ w. ends))

  -- How the function ends, by what the search for the problem gave.
  abbrev pub Ended : StatusOr ContestProblem → World → Status × Text × World → Type 0
  Ended (err e) w (s, text, w') = (s ≡ err e) × (text ≡ []) × (w ≡ w')
  Ended (ok problem) w (s, text, w') = Story problem parts w s text

  Ended-parts_for :
      Tests testing
      → (found : StatusOr ContestProblem) (w : World)
      → Ended found w (parts_for testing locations found w)
  Ended-parts_for tests (err e) w = (refl, refl, refl)
  Ended-parts_for tests (ok problem) w = Told-three_parts problem tests w

  -- The status of SolveGregorAndCryptography, and what it prints, if every result of `Test` is one
  -- that `Tests` allows. If the search for the problem fails, its error is the status, and nothing
  -- is printed or run. Otherwise the parts follow one another, each with its heading, and each
  -- from the world that the one before it left. Where the call of `Test` for a part's program returns
  -- an error, this is the status, and nothing follows; where it returns a value, the report of this value
  -- follows, and if the program compiled there are ten results behind it, each of which is
  -- accounted for as the result of a run on the input of this number, or as the empty one of a test
  -- that was not run; after the three reports the status is OK.
  pub solve-Ended :
      (records : List ContestProblem) (w : World)
      → Tests testing
      → Ended
          (find_gregor_and_cryptography records)
          w
          (solve_gregor_and_cryptography testing locations records w)
  unfolding solve_gregor_and_cryptography
  solve-Ended records w tests = Ended-parts_for tests (find_gregor_and_cryptography records) w
