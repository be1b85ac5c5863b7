-- ===== src/Runner/Beginning.antt =====
-- `Test` before its thread pool: the checks of the arguments and the compilation.
use code_contests.Prelude.{
  ℕ, true, false, ◌≡◌, refl, ◌≢◌, ◌⊎◌, ◌↔◌, inl, inr, [], length, arith, Bool-cases,
}
use code_contests.Status.{StatusOr, Error, ok, err, ok_status}
use code_contests.Status.Laws.{StatusOr-cases}
use code_contests.Retry.{retry_if_fail}
use code_contests.Results.{ExecutionResult, MultiTestResult, is_success}
use code_contests.Runner.Task.{Job}
use code_contests.Runner.{
  check_arguments, returned, after_compilation, begin_test, max_compilation_duration,
}

returned-injective : {r s : StatusOr MultiTestResult} → returned r ≡ returned s → s ≡ r
returned-injective h = cc

pub early_compilation :
    (q : StatusOr ExecutionResult) (r : StatusOr MultiTestResult)
    → after_compilation q ≡ returned r
    → ((e : Error) × (q ≡ err e) × (r ≡ err e))
      ⊎ ((c : ExecutionResult) × (q ≡ ok c)
          × (is_success c.program_status ≡ false)
          × (r ≡ ok (record { compilation_result = c; test_results = [] })))
early_compilation (err e) r h = inl (e, refl, returned-injective h)
early_compilation (ok c) r h = elim (Bool-cases (is_success c.program_status)) [
  | inl good ↦ absurd (ground arith)
  | inr bad ↦ inr (c, refl, bad, ground arith)
]

module _ {W : Type 0} (compile_code : ℕ → W → StatusOr ExecutionResult × W) (pause : W → W)
    (j : Job) (w : W) where
  pub begin_cases :
      (r : StatusOr MultiTestResult) (w' : W)
      → begin_test compile_code pause j w ≡ (returned r, w')
      → ((e : Error) × (check_arguments j ≡ err e) × (r ≡ err e) × (w' ≡ w))
        ⊎ ((check_arguments j ≡ ok_status)
            × (after_compilation (retry_if_fail (compile_code max_compilation_duration) pause w).0
                ≡ returned r)
            × (w' ≡ (retry_if_fail (compile_code max_compilation_duration) pause w).1))
  unfolding begin_test
  begin_cases r w' h = elim (StatusOr-cases (check_arguments j)) [
    | inl (tt, e) ↦ inr (e, ground arith, ground arith)
    | inr (x, e) ↦ inl (x, e, ground arith, ground arith)
  ]

  -- An early return is no success: an error, or a result without tests whose compilation failed.
  pub early_result :
      (r : StatusOr MultiTestResult) (w' : W) (m : MultiTestResult)
      → begin_test compile_code pause j w ≡ (returned r, w')
      → r ≡ ok m
      → (is_success m.compilation_result.program_status ≡ false) × (m.test_results ≡ [])
  unfolding begin_test
  early_result r w' m e g = elim (begin_cases r w' e) [
    | inl (x, _, q, _) ↦ absurd (cc)
    | inr (_, q, _) ↦
        elim (early_compilation (retry_if_fail (compile_code max_compilation_duration) pause w).0 r
          q) [ inl (x, _, a) ↦ absurd (cc) | inr (c, _, bad, a) ↦ (ground arith, ground arith) ]
  ]

-- The arguments are accepted exactly when there are no expected outputs or as many as inputs, and
-- early stopping comes with expected outputs.
pub check_arguments_iff :
    (j : Job)
    → (check_arguments j ≡ ok_status) ↔ (
        ((j.expected ≡ []) ⊎ (length j.inputs ≡ length j.expected))
        × (j.options.stop_on_first_failure ≡ true → j.expected ≢ []))
unfolding check_arguments
check_arguments_iff j = (λ h. (ground arith, λ s n. ground arith), λ h. ground arith)
