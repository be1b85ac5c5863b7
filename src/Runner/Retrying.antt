-- ===== src/Runner/Retrying.antt =====
-- The steps of a task follow the function `RetryIfFail`.
use code_contests.Prelude.{ℕ, zero, suc, ◌≡◌, inl, inr, false, some, Bool-cases}
use code_contests.Status.{StatusOr}
use code_contests.Retry.{max_test_attempts, no_attempts, stops, retry_loop, retry_if_fail}
use code_contests.Results.{ExecutionResult}
use code_contests.Runner.Task.{
  Job, Shared, Local, head, leaves, Move, gives_up, sees_none, runs, breaks, retries, text_at,
  tasks,
}

module _ (j : Job) (s : Shared) (t : ℕ) where
  -- Moves of the task that leave the shared variables alone.
  pub data Leads : Local → Local → Type 0 where
    stay : {l : Local} → Leads l l
    go : {l m n : Local} → Move j s t l s (some m) → Leads m n → Leads l n

  module _ {W : Type 0} (fn : W → StatusOr ExecutionResult × W) (pause : W → W)
      (can : (w : W) → j.Outcome (text_at j.inputs t) (fn w).0)
      (quiet : s.should_stop ≡ false) where
    loop_path :
        (n : ℕ) (r : StatusOr ExecutionResult) (w : W)
        → Leads (head n r) (leaves (retry_loop fn pause n r w).0)
    unfolding retry_loop
    loop_path zero r w = go gives_up stay
    loop_path (suc n) r w = elim (Bool-cases (stops (fn w).0)) [
      | inl now ↦
          rw (now, retry_loop) (go (sees_none quiet) (go (runs (can w)) (go (breaks now) stay)))
      | inr more ↦
          rw (more, retry_loop)
            (go (sees_none quiet)
              (go (runs (can w)) (go (retries more) (loop_path n (fn w).0 (pause (fn w).1)))))
    ]

    -- As long as no task asks to stop, the steps of a task lead from its begin to the result of
    -- RetryIfFail around RunCodeOnInput, for every world that RunCodeOnInput may meet.
    pub task_retries : (w : W) → Leads ((tasks j).begin t) (leaves (retry_if_fail fn pause w).0)
    unfolding retry_if_fail
    task_retries w = loop_path max_test_attempts no_attempts w
