-- ===== src/Runner/Task.antt =====
-- The task that `Test` schedules for each input, and the variables that the tasks share.
use code_contests.Prelude.{
  ℕ, zero, suc, ◌*◌, ◌^◌, Bool, true, false, not, ◌&&◌, ◌≡◌, Option, none, some, List, [], ◌∷◌, set,
  if◌then◌else◌, Text, codes,
}
use code_contests.Status.{StatusOr, Status, ok, err, ok_status, error, cancelled, is_cancelled}
use code_contests.Absl.{Absl}
use code_contests.Retry.{max_test_attempts, no_attempts, stops}
use code_contests.Results.{ExecutionResult}
use code_contests.Pool.{Tasks}

-- Durations in nanoseconds; the numbers are not negative.
pub record TestOptions : Type 0 where
  pub max_execution_duration : ℕ
  pub num_threads : ℕ
  pub memory_limit_bytes : ℕ
  pub stop_on_first_failure : Bool

abbrev pub default_options : TestOptions
default_options = record {
  max_execution_duration = 10 * 10 ^ 9;
  num_threads = 1;
  memory_limit_bytes = 256 * 2 ^ 20;
  stop_on_first_failure = false;
}

abbrev pub nonempty {ℓ} : {A : Type ℓ} → List A → Bool
nonempty [] = false
nonempty (x ∷ xs) = true

-- The arguments of `Test` that matter behind the compilation. `Outcome input r`: RunCodeOnInput can
-- return `r` for this input.
pub record Job : Type 1 where
  pub absl : Absl
  pub options : TestOptions
  pub inputs : List Text
  pub expected : List Text
  pub compare_outputs : Text → Text → Bool
  pub Outcome : Text → StatusOr ExecutionResult → Type 0

-- `v[i]`. Out of range the source has no meaning; `Test` has compared the lengths.
abbrev pub text_at : List Text → ℕ → Text
text_at [] i = []
text_at (t ∷ ts) zero = t
text_at (t ∷ ts) (suc i) = text_at ts i

pub record Shared : Type 0 where
  pub should_stop : Bool
  pub overall_status : Status
  pub test_results : List ExecutionResult

-- Where a task stands: at the head of the loop of RetryIfFail, with the rounds left and the last
-- result; before RunCodeOnInput, behind the look at `should_stop`; behind the call of `fn`, with its
-- result; behind RetryIfFail.
pub data Local : Type 0 where
  head : (left : ℕ) → StatusOr ExecutionResult → Local
  called : (left : ℕ) → Local
  got : (left : ℕ) → StatusOr ExecutionResult → Local
  leaves : StatusOr ExecutionResult → Local

abbrev pub should_stop_error : StatusOr ExecutionResult
should_stop_error = error cancelled (codes "should_stop")

module _ (j : Job) where
  open j use {absl, options, inputs, expected, compare_outputs, Outcome}

  -- `!expected_test_outputs.empty()`
  abbrev pub checking_outputs : Bool
  checking_outputs = nonempty expected

  abbrev pub matches : ℕ → ExecutionResult → Bool
  matches i x = compare_outputs x.stdout (text_at expected i)

  -- The result as it is stored: with the verdict, if outputs are checked.
  unfoldable pub judge : ℕ → ExecutionResult → ExecutionResult
  judge i x = if checking_outputs then record x { passed = some (matches i x) } else x

  -- Whether a result sets `should_stop`.
  unfoldable pub stops_all : ℕ → ExecutionResult → Bool
  stops_all i x = checking_outputs && (options.stop_on_first_failure && not (matches i x))

  -- The part of the task under the lock of `output_mutex`.
  unfoldable pub publish : ℕ → StatusOr ExecutionResult → Shared → Shared
  unfolding judge stops_all
  publish i (err e) s = record s {
    overall_status = absl.update s.overall_status (err e);
    should_stop = true;
  }
  publish i (ok x) s = record s {
    overall_status = absl.update s.overall_status ok_status;
    should_stop = if stops_all i x then true else s.should_stop;
    test_results = set s.test_results i (judge i x);
  }

  pub data Move (s : Shared) (i : ℕ) : Local → Shared → Option Local → Type 0 where
    -- no round is left
    gives_up : {r : StatusOr ExecutionResult} → Move s i (head zero r) s (some (leaves r))
    -- the look at `should_stop`, under the reader lock
    sees_stop :
        {left : ℕ} {r : StatusOr ExecutionResult}
        → s.should_stop ≡ true
        → Move s i (head (suc left) r) s (some (got left should_stop_error))
    sees_none :
        {left : ℕ} {r : StatusOr ExecutionResult}
        → s.should_stop ≡ false
        → Move s i (head (suc left) r) s (some (called left))
    -- RunCodeOnInput
    runs :
        {left : ℕ} {r : StatusOr ExecutionResult}
        → Outcome (text_at inputs i) r
        → Move s i (called left) s (some (got left r))
    -- the test that leaves the loop of RetryIfFail
    breaks :
        {left : ℕ} {r : StatusOr ExecutionResult}
        → stops r ≡ true
        → Move s i (got left r) s (some (leaves r))
    retries :
        {left : ℕ} {r : StatusOr ExecutionResult}
        → stops r ≡ false
        → Move s i (got left r) s (some (head left r))
    -- a cancelled task returns and leaves no trace
    skips : {r : StatusOr ExecutionResult} → is_cancelled r ≡ true → Move s i (leaves r) s none
    publishes :
        {r : StatusOr ExecutionResult}
        → is_cancelled r ≡ false
        → Move s i (leaves r) (publish i r s) none

  abbrev pub tasks : Tasks
  tasks = record {
    Task = ℕ;
    Local = Local;
    Shared = Shared;
    begin = λ i. head max_test_attempts no_attempts;
    Move = Move;
  }
