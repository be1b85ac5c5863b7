-- ===== src/Retry.antt =====
-- `RetryIfFail` of execution/tester_sandboxer.cc: a fallible action is attempted three times.
-- The action reads and writes a world, and so does the pause between two attempts.
pub mod Laws
mod Examples
use code_contests.Prelude.{ℕ, zero, suc, Bool, true, false, ◌||◌, codes}
use code_contests.Status.{StatusOr, internal, error, is_ok, is_cancelled}

-- kMaxTestAttempts
abbrev pub max_test_attempts : ℕ
max_test_attempts = 3

-- The test that leaves the loop: success, or a cancellation, which is not attempted again.
abbrev pub stops {ℓ} : {A : Type ℓ} → StatusOr A → Bool
stops r = is_ok r || is_cancelled r

abbrev pub no_attempts {ℓ} : {A : Type ℓ} → StatusOr A
no_attempts = error internal (codes "No attempts made.")

module _ {ℓ κ} {A : Type ℓ} {W : Type κ} (fn : W → StatusOr A × W) (pause : W → W) where
  -- The rounds that are left of the `for` loop, with `result` from the last one.
  unfoldable pub retry_loop : ℕ → StatusOr A → W → StatusOr A × W
  retry_loop zero result w = (result, w)
  retry_loop (suc left) result w =
      let (r, w') = fn w in elim (stops r) [ true ↦ (r, w') | false ↦ retry_loop left r (pause w') ]

  unfoldable pub retry_if_fail : W → StatusOr A × W
  unfolding retry_loop
  retry_if_fail = retry_loop max_test_attempts no_attempts
