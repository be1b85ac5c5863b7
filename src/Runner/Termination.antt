-- ===== src/Runner/Termination.antt =====
-- `Test` returns.
use code_contests.Prelude.{
  ℕ, zero, suc, ◌+◌, ◌*◌, ◌<◌, ◌≤◌, ◌≡◌, ◌⊎◌, refl, inl, inr, none, some, List, [], ◌∷◌, length,
  total, ap, arith, Bool-cases,
}
use code_contests.Status.{StatusOr, is_cancelled}
use code_contests.Retry.{stops}
use code_contests.Results.{ExecutionResult, MultiTestResult}
use code_contests.Pool.{Step, Pool, Reach, started, start_workers, Joined}
use code_contests.Pool.Progress.{
  progress, Live, Run, can_join, Reach-Run, Run-measure, measure-start_workers, to_do,
}
use code_contests.Runner.Task.{
  Job, Shared, Local, head, called, got, leaves, Move, gives_up, sees_stop, sees_none, runs, breaks,
  retries, skips, publishes, text_at, publish, tasks,
}
use code_contests.Runner.Run.{input_count, all_tasks}
use code_contests.Runner.{
  indices, Begun, returned, compiled, begin_test, fresh, collect, Returns, early, tested,
}

-- A bound on the moves of a task.
abbrev pub cost : Local → ℕ
cost (head left r) = 4 * left + 1
cost (called left) = 4 * left + 3
cost (got left r) = 4 * left + 2
cost (leaves r) = 0

total-constant {ℓ} :
    {A : Type ℓ} (w : A → ℕ) (c : ℕ) (xs : List A)
    → ((a : A) → w a ≡ c)
    → total w xs ≡ c * length xs
total-constant w c [] h = omega arith
total-constant w c (x ∷ xs) h = grind (arith, h x, total-constant w c xs h)

length-indices : (i n : ℕ) → length (indices i n) ≡ n
unfolding indices
length-indices i zero = refl
length-indices i (suc n) = ap suc (length-indices (suc i) n)

module _ (j : Job) where
  -- RunCodeOnInput returns something for every input.
  abbrev pub Answers : Type 0
  Answers = (i : ℕ) → (r : StatusOr ExecutionResult) × j.Outcome (text_at j.inputs i) r

  Task-Live : Answers → Live (tasks j)
  Task-Live a s t (head zero r) = (s, some (leaves r), gives_up)
  Task-Live a s t (head (suc left) r) = elim (Bool-cases s.should_stop) [
    | inl b ↦ (s, _, sees_stop b)
    | inr b ↦ (s, _, sees_none b)
  ]
  Task-Live a s t (called left) = let (r, o) = a t in (s, some (got left r), runs o)
  Task-Live a s t (got left r) = elim (Bool-cases (stops r)) [
    | inl b ↦ (s, some (leaves r), breaks b)
    | inr b ↦ (s, some (head left r), retries b)
  ]
  Task-Live a s t (leaves r) = elim (Bool-cases (is_cancelled r)) [
    | inl b ↦ (s, none, skips b)
    | inr b ↦ (publish j t r s, none, publishes b)
  ]

  cost_falls :
      {s : Shared} {t : ℕ} {l l' : Local} {s' : Shared}
      → Move j s t l s' (some l')
      → cost l' < cost l
  cost_falls gives_up = omega arith
  cost_falls (sees_stop e) = omega arith
  cost_falls (sees_none e) = omega arith
  cost_falls (runs o) = omega arith
  cost_falls (breaks e) = omega arith
  cost_falls (retries e) = omega arith

  Move-cost : (s s' : Shared) (t : ℕ) (l l' : Local) → Move j s t l s' (some l') → cost l' < cost l
  Move-cost s s' t l l' m = cost_falls m

  -- A test run is finite: `m` steps of the pool from its start leave `m` less of a bound that the
  -- numbers of inputs and threads fix: 17 for each input, 2 for each thread, and 1.
  pub test_steps_le :
      (n m : ℕ) (q : Pool (tasks j))
      → Run (tasks j) (start_workers (tasks j) n (all_tasks j) (fresh (input_count j))) m q
      → m ≤ 17 * input_count j + 2 * n + 1
  test_steps_le n m q run = omega (
    arith,
    Run-measure (tasks j) cost Move-cost run,
    measure-start_workers (tasks j) cost Move-cost n (all_tasks j) (fresh (input_count j)),
    total-constant (to_do (tasks j) cost Move-cost) 17 (all_tasks j) (λ i. refl),
    length-indices 0 (input_count j),
  )

module _ (j : Job) where
  module _ {W : Type 0} (compile_code : ℕ → W → StatusOr ExecutionResult × W) (pause : W → W)
      (w : W) where
    joins :
        Answers j
        → (p : Pool (tasks j)) × Reach
            (tasks j)
            j.options.num_threads
            (all_tasks j)
            (fresh (input_count j))
            p
          × Joined (tasks j) p
    joins a =
        let (p, m, run, joined) = can_join (tasks j) cost (Move-cost j) (Task-Live j a) started in
        (p, Reach-Run (tasks j) started run, joined)

    -- `Test` has a result, if RunCodeOnInput has one for every input.
    pub some_result : Answers j → (r : StatusOr MultiTestResult) × Returns compile_code pause j w r
    some_result a = by_begin (begin_test compile_code pause j w) refl
      where
        by_begin :
            (b : Begun × W)
            → begin_test compile_code pause j w ≡ b
            → (r : StatusOr MultiTestResult) × Returns compile_code pause j w r
        by_begin (returned r, w') e = (r, early e)
        by_begin (compiled c, w') e =
            let (p, reach, joined) = joins a in (collect c p.shared, tested e reach joined)

    abbrev start : Pool (tasks j)
    start = start_workers (tasks j) j.options.num_threads (all_tasks j) (fresh (input_count j))

    -- No schedule of the threads keeps `Test` from returning. Either it has returned before there are
    -- threads. Or all runs of its pool are bounded in length, and the state after each of them is one
    -- in which some thread can go on, or one in which `Test` returns what the threads left.
    abbrev pub EndsAlways : Begun → Type 1
    EndsAlways (returned r) = Returns compile_code pause j w r
    EndsAlways (compiled c) =
        (m : ℕ) (q : Pool (tasks j))
        → Run (tasks j) start m q
        → (m ≤ 17 * input_count j + 2 * j.options.num_threads + 1)
          × ((Joined (tasks j) q × Returns compile_code pause j w (collect c q.shared))
              ⊎ ((q' : Pool (tasks j)) × Step (tasks j) q q'))

    goes_on_or_returns :
        {c : ExecutionResult} {w' : W} (m : ℕ) (q : Pool (tasks j))
        → Answers j
        → begin_test compile_code pause j w ≡ (compiled c, w')
        → Run (tasks j) start m q
        → (Joined (tasks j) q × Returns compile_code pause j w (collect c q.shared))
          ⊎ ((q' : Pool (tasks j)) × Step (tasks j) q q')
    goes_on_or_returns m q a e run =
        let reach = Reach-Run (tasks j) started run in
        elim (progress (tasks j) (Task-Live j a) reach) [
          | inl joined ↦ inl (joined, tested e reach joined)
          | inr on ↦ inr on
        ]

    ends_always :
        (b : Begun) (w' : W)
        → Answers j
        → begin_test compile_code pause j w ≡ (b, w')
        → EndsAlways b
    ends_always (returned r) w' a e = early e
    ends_always (compiled c) w' a e =
        λ m q run. (test_steps_le j j.options.num_threads m q run, goes_on_or_returns m q a e run)

    -- `Test` returns, whatever the arguments and the number of threads are, however its threads are
    -- scheduled, and whatever result each call of RunCodeOnInput gives, if each has one. It returns
    -- before there are threads; or every run of the pool is at most as long as a bound that the
    -- numbers of inputs and threads fix, and wherever a run has come to, a thread can go on, or all
    -- have ended and `Test` returns what they left.
    pub test-EndsAlways : Answers j → EndsAlways (begin_test compile_code pause j w).0
    test-EndsAlways a =
        ends_always (begin_test compile_code pause j w).0 (begin_test compile_code pause j w).1 a
          refl
