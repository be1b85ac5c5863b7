-- ===== src/Runner/Compiling.antt =====
-- Where the compilation result of `Test` comes from.
use code_contests.Prelude.{ℕ, ◌<◌, ◌≡◌, true, refl, sym, ◌∙◌, ap, inl, inr, Bool-cases, arith}
use code_contests.Status.{StatusOr, ok, err, ok_status}
use code_contests.Status.Laws.{StatusOr-cases}
use code_contests.Retry.{retry_if_fail, max_test_attempts}
use code_contests.Retry.Laws.{entering, retry_if_fail-result}
use code_contests.Results.{
  ExecutionResult, MultiTestResult, ProgramStatus, is_success, success, unknown, failed, timeout,
}
use code_contests.Runner.Task.{Job}
use code_contests.Runner.Beginning.{begin_cases, early_compilation}
use code_contests.Runner.Correctness.{collect_ok}
use code_contests.Runner.{
  check_arguments, compiled, after_compilation, begin_test, Returns, early, tested,
  max_compilation_duration,
}

success_of : (u : ProgramStatus) → is_success u ≡ true → u ≡ success
success_of success h = refl
success_of unknown h = absurd (cc)
success_of failed h = absurd (cc)
success_of timeout h = absurd (cc)

compiled-result :
    (q : StatusOr ExecutionResult) (c : ExecutionResult)
    → after_compilation q ≡ compiled c
    → (q ≡ ok c) × (c.program_status ≡ success)
compiled-result (err e) c h = absurd (cc)
compiled-result (ok d) c h = elim (Bool-cases (is_success d.program_status)) [
  | inl good ↦ let same : d ≡ c = ground arith in (ap ok same, success_of c.program_status (cc))
  | inr bad ↦ absurd (ground arith)
]

module _ {W : Type 0} (compile_code : ℕ → W → StatusOr ExecutionResult × W) (pause : W → W)
    (j : Job) (w : W) where
  abbrev retried : StatusOr ExecutionResult
  retried = (retry_if_fail (compile_code max_compilation_duration) pause w).0

  -- `Test` comes to the tests only with accepted arguments and a successful compilation.
  pub begun-result :
      (c : ExecutionResult) (w' : W)
      → begin_test compile_code pause j w ≡ (compiled c, w')
      → (check_arguments j ≡ ok_status) × (retried ≡ ok c) × (c.program_status ≡ success)
  unfolding begin_test
  begun-result c w' h = elim (StatusOr-cases (check_arguments j)) [
    | inl (tt, e) ↦ let (q, good) = compiled-result retried c (ground arith) in (e, q, good)
    | inr (x, e) ↦ absurd (ground arith)
  ]

  result-retried :
      (r : StatusOr MultiTestResult) (m : MultiTestResult)
      → Returns compile_code pause j w r
      → r ≡ ok m
      → retried ≡ ok m.compilation_result
  result-retried r m (early {w' = w'} e) g = elim (begin_cases compile_code pause j w r w' e) [
    | inl (x, _, q, _) ↦ absurd (cc)
    | inr (_, q, _) ↦ elim (early_compilation retried r q) [
      | inl (x, _, a) ↦ absurd (cc)
      | inr (c, is, _, a) ↦ cc
    ]
  ]
  result-retried r m (tested {c} {w' = w'} {p = p} e reach joined) g =
      let (_, _, same) = collect_ok j c p.shared m g in (begun-result c w' e).1 ∙ ap ok (sym same)

  -- The compilation result of `Test` is one that CompileCode gave in one of its attempts, with the time
  -- limit of compilations.
  pub test-compilation :
      (m : MultiTestResult)
      → Returns compile_code pause j w (ok m)
      → (k : ℕ) × (k < max_test_attempts)
        × ((compile_code max_compilation_duration
              (entering (compile_code max_compilation_duration) pause k w)).0
            ≡ ok m.compilation_result)
  test-compilation m r =
      let (k, within, e) = retry_if_fail-result (compile_code max_compilation_duration) pause w in
      (k, within, sym e ∙ result-retried (ok m) m r refl)

  result-compiled :
      (r : StatusOr MultiTestResult) (m : MultiTestResult) (c : ExecutionResult) (w' : W)
      → begin_test compile_code pause j w ≡ (compiled c, w')
      → Returns compile_code pause j w r
      → r ≡ ok m
      → m.compilation_result ≡ c
  result-compiled r m c w' b t g =
      let (_, e, _) = begun-result c w' b in cc (sym (result-retried r m t g) ∙ e)

  -- A value that `Test` returns behind a successful compilation holds its result.
  pub compiled-result_of :
      (m : MultiTestResult) (c : ExecutionResult) (w' : W)
      → begin_test compile_code pause j w ≡ (compiled c, w')
      → Returns compile_code pause j w (ok m)
      → m.compilation_result.program_status ≡ success
  compiled-result_of m c w' b t =
      let (_, _, good) = begun-result c w' b in
      ap (λ (x : ExecutionResult). x.program_status) (result-compiled (ok m) m c w' b t refl) ∙ good
