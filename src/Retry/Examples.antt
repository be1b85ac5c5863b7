-- ===== src/Retry/Examples.antt =====
-- `retry_if_fail` on an action that takes its results from a list.
use code_contests.Prelude.{ℕ, suc, ◌≡◌, refl, List, [], ◌∷◌}
use code_contests.Status.{StatusOr, ok, ErrorCode, error}
use code_contests.Retry.{max_test_attempts, retry_if_fail}
use code_contests.Retry.Laws.{Decides, settled, attempt, retry_if_fail_lem}

-- The results that are still to come, and the number of pauses so far.
record Script : Type 0 where
  results : List (StatusOr ℕ)
  pauses : ℕ

abbrev flaky : StatusOr ℕ
flaky = error ErrorCode.unavailable []

abbrev stopped : StatusOr ℕ
stopped = error ErrorCode.cancelled []

abbrev next_result : List (StatusOr ℕ) → ℕ → StatusOr ℕ × Script
next_result [] n = (flaky, record { results = []; pauses = n })
next_result (r ∷ rs) n = (r, record { results = rs; pauses = n })

abbrev action : Script → StatusOr ℕ × Script
action s = next_result s.results s.pauses

abbrev pause : Script → Script
pause s = record s { pauses = suc s.pauses }

abbrev script : List (StatusOr ℕ) → Script
script rs = record { results = rs; pauses = 0 }

abbrev one_flake : Script
one_flake = script (flaky ∷ ok 7 ∷ flaky ∷ [])

second_succeeds :
    retry_if_fail action pause one_flake ≡ (ok 7, record { results = flaky ∷ []; pauses = 1 })
unfolding retry_if_fail
second_succeeds = refl

cancelled_at_once :
    retry_if_fail action pause (script (stopped ∷ ok 7 ∷ []))
    ≡ (stopped, record { results = ok 7 ∷ []; pauses = 0 })
unfolding retry_if_fail
cancelled_at_once = refl

fourth_never_made :
    retry_if_fail action pause (script (flaky ∷ flaky ∷ flaky ∷ ok 7 ∷ []))
    ≡ (flaky, record { results = ok 7 ∷ []; pauses = 3 })
unfolding retry_if_fail
fourth_never_made = refl

retry_if_fail_lem_example :
    (k : ℕ) × Decides action pause max_test_attempts k one_flake
    × (retry_if_fail action pause one_flake
        ≡ settled action pause (attempt action pause k one_flake))
retry_if_fail_lem_example = retry_if_fail_lem action pause one_flake
