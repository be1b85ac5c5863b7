-- ===== src/Results/Print.antt =====
-- The two stream operators of execution/tester_sandboxer.cc. Numbers are printed in decimal, and a
-- duration by a function of the time library.
use mathlib.Core.List.{append_assoc}
use code_contests.Prelude.{
  ap, sym, ◌∙◌, ℕ, zero, suc, ◌+◌, ◌/◌, ◌%◌, ◌≡◌, refl, Bool, true, false, Option, none, some, List,
  [], ◌∷◌, ◌++◌, ltb, if◌then◌else◌, Text, codes,
}
use code_contests.Prelude.Int.{ℤ}
use code_contests.Results.{
  ProgramStatus, unknown, success, failed, timeout, ExecutionResult, MultiTestResult,
}

-- The digits of a number, the last one first; `n + 1` rounds are enough.
unfoldable pub digits_loop : ℕ → ℕ → Text
digits_loop zero n = []
digits_loop (suc fuel) n = elim (ltb n 10) [
  | true ↦ (b'0' + n) ∷ []
  | false ↦ digits_loop fuel (n / 10) ++ (b'0' + n % 10) ∷ []
]

unfoldable pub decimal : ℕ → Text
unfolding digits_loop
decimal n = digits_loop (n + 1) n

-- static_cast<int>(program_status)
abbrev pub to_int : ProgramStatus → ℕ
to_int unknown = 0
to_int success = 1
to_int failed = 2
to_int timeout = 3

-- A std::optional<bool> as a condition: whether it has a value.
abbrev pub has_value {ℓ} : {A : Type ℓ} → Option A → Bool
has_value none = false
has_value (some a) = true

-- Pieces before a text, one after the other, and on their own.
abbrev before_text : List Text → Text → Text
before_text [] t = t
before_text (x ∷ xs) t = x ++ before_text xs t

abbrev in_order : List Text → Text
in_order [] = []
in_order (x ∷ xs) = x ++ in_order xs

in_order_before : (xs : List Text) (t : Text) → before_text xs t ≡ in_order xs ++ t
in_order_before [] t = refl
in_order_before (x ∷ xs) t =
    ap (λ y. x ++ y) (in_order_before xs t) ∙ sym (append_assoc x (in_order xs) t)

module _ (print_duration : ℤ → Text) where
  unfoldable pub print_result : ExecutionResult → Text
  unfolding decimal
  print_result r =
      codes "Execution Result: \n"
      ++ (codes "  status: "
          ++ (decimal (to_int r.program_status)
              ++ (codes "\n"
                  ++ (codes "  program hash: "
                      ++ (decimal r.program_hash
                          ++ (codes "\n"
                              ++ (codes "  stdout: \""
                                  ++ (r.stdout
                                      ++ (codes "\"\n"
                                          ++ (codes "  stderr: \""
                                              ++ (r.stderr
                                                  ++ (codes "\"\n"
                                                      ++ (codes "  duration: "
                                                          ++ (print_duration r.execution_duration
                                                            ++ (codes "\n"
                                                            ++ (codes "  sandbox result: \""
                                                            ++ (r.sandbox_result
                                                            ++ (codes "\"\n"
                                                            ++ (codes "  passed: "
                                                            ++ ((if has_value r.passed
                                                            then codes "true"
                                                            else codes "false")
                                                            ++ codes "\n"))))))))))))))))))))

  pub print_tests : ℕ → List ExecutionResult → Text
  unfolding decimal print_result
  print_tests index [] = []
  print_tests index (r ∷ rs) =
      codes "  Test Result "
      ++ (decimal index
          ++ (codes ":\n" ++ (print_result r ++ (codes "\n\n" ++ print_tests (index + 1) rs))))

  unfoldable pub print_multi : MultiTestResult → Text
  unfolding print_tests
  print_multi m =
      codes "MultiTestResult:\n"
      ++ (codes "  Compilation result:\n"
          ++ (print_result m.compilation_result ++ (codes "\n\n" ++ print_tests 0 m.test_results)))

  -- What the printer writes before the verdict, in pieces.
  abbrev pieces : ExecutionResult → List Text
  pieces r =
      codes "Execution Result: \n"
      ∷ codes "  status: "
      ∷ decimal (to_int r.program_status)
      ∷ codes "\n"
      ∷ codes "  program hash: "
      ∷ decimal r.program_hash
      ∷ codes "\n"
      ∷ codes "  stdout: \""
      ∷ r.stdout
      ∷ codes "\"\n"
      ∷ codes "  stderr: \""
      ∷ r.stderr
      ∷ codes "\"\n"
      ∷ codes "  duration: "
      ∷ print_duration r.execution_duration
      ∷ codes "\n"
      ∷ codes "  sandbox result: \""
      ∷ r.sandbox_result
      ∷ codes "\"\n"
      ∷ []

  -- The last line of a printed result, whatever the verdict is: a result with a verdict, be it
  -- positive or negative, is printed with `passed: true`, and the same result without a verdict
  -- with `passed: false`, after the same text.
  pub print_result-passed :
      (r : ExecutionResult) (b : Bool)
      → (before : Text) × (print_result (record r { passed = some b })
          ≡ before ++ codes "  passed: true\n")
        × (print_result (record r { passed = none }) ≡ before ++ codes "  passed: false\n")
  unfolding print_result
  print_result-passed r b = (
    in_order (pieces r),
    in_order_before (pieces r) (codes "  passed: true\n"),
    in_order_before (pieces r) (codes "  passed: false\n"),
  )
