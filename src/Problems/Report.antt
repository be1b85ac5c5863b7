-- ===== src/Problems/Report.antt =====
-- The report on the results of a test run.
use code_contests.Prelude.{
  zero, suc, ◌≢◌, ℕ, ◌+◌, ◌≡◌, refl, ◌∙◌, ap, Bool, true, false, Option, none, some, List, [], ◌∷◌,
  ◌++◌, map, Text, codes, if◌then◌else◌, arith,
}
use code_contests.Results.{ExecutionResult, MultiTestResult, is_success}
use code_contests.Results.Print.{decimal}
use code_contests.Problems.{verdict_text, report_tests, report_results}

same_rest : (xs ys zs : Text) → xs ++ ys ≡ xs ++ zs → ys ≡ zs
same_rest [] ys zs h = h
same_rest (x ∷ xs) ys zs h = same_rest xs ys zs (cc h)

-- The byte at a place, 0 behind the end.
abbrev byte_at : Text → ℕ → ℕ
byte_at [] i = 0
byte_at (c ∷ s) zero = c
byte_at (c ∷ s) (suc i) = byte_at s i

apart_at : (i : ℕ) (s t : Text) → byte_at s i ≢ byte_at t i → ¬ (s ≡ t)
apart_at i s t n h = n (ap (λ x. byte_at x i) h)

-- The line of a test ends with its verdict, and the next line can begin nowhere else.
same_verdict :
    (v v' : Option Bool) (s t : Text)
    → verdict_text v ++ s ≡ verdict_text v' ++ t
    → (v ≡ v') × (s ≡ t)
same_verdict none none s t h = (refl, cc h)
same_verdict (some true) (some true) s t h = (refl, cc h)
same_verdict (some false) (some false) s t h = (refl, cc h)
same_verdict none (some true) s t h = absurd (apart_at 1 _ _ (omega arith) h)
same_verdict none (some false) s t h = absurd (apart_at 1 _ _ (omega arith) h)
same_verdict (some true) none s t h = absurd (apart_at 1 _ _ (omega arith) h)
same_verdict (some true) (some false) s t h = absurd (apart_at 1 _ _ (omega arith) h)
same_verdict (some false) none s t h = absurd (apart_at 1 _ _ (omega arith) h)
same_verdict (some false) (some true) s t h = absurd (apart_at 1 _ _ (omega arith) h)

abbrev pub verdicts : List ExecutionResult → List (Option Bool)
verdicts = map (λ r. r.passed)

same_verdicts :
    (i : ℕ) (rs qs : List ExecutionResult)
    → report_tests i rs ≡ report_tests i qs
    → verdicts rs ≡ verdicts qs
unfolding report_tests
same_verdicts i [] [] h = refl
same_verdicts i [] (q ∷ qs) h = cc h
same_verdicts i (r ∷ rs) [] h = cc h
same_verdicts i (r ∷ rs) (q ∷ qs) h =
    let (v, rest) =
      same_verdict r.passed q.passed _ _
        (same_rest (decimal i) _ _ (same_rest (codes "Test ") _ _ h)) in
    ap (λ x. x ∷ verdicts rs) v ∙ ap (λ xs. q.passed ∷ xs) (same_verdicts (i + 1) rs qs rest)

abbrev head : Bool → Text
head b = if b then codes "succeeded" else codes "failed"

same_head : (b c : Bool) (s t : Text) → head b ++ s ≡ head c ++ t → (b ≡ c) × (s ≡ t)
same_head true true s t h = (refl, same_rest (codes "succeeded") s t h)
same_head false false s t h = (refl, same_rest (codes "failed") s t h)
same_head true false s t h = absurd (apart_at 0 _ _ (omega arith) h)
same_head false true s t h = absurd (apart_at 0 _ _ (omega arith) h)

-- A report loses nothing that it is about: two results with one report agree on whether the
-- compilation succeeded, on how many tests there are, and on which of them passed, failed and did
-- not run.
pub report_results-verdicts :
    (m n : MultiTestResult)
    → report_results m ≡ report_results n
    → (is_success m.compilation_result.program_status
        ≡ is_success n.compilation_result.program_status)
      × (verdicts m.test_results ≡ verdicts n.test_results)
unfolding report_results
report_results-verdicts m n h =
    let (compiled, rest) = same_head _ _ _ _ (same_rest (codes "Compilation ") _ _ h) in
    (compiled, same_verdicts 0 m.test_results n.test_results (same_rest (codes "\n") _ _ rest))
