-- ===== src/Runner/Examples/Determined.antt =====
-- Two threads run two tests, and the second test finishes first.
use code_contests.Prelude.{
  ◌≡◌, refl, inl, true, false, some, none, [], ◌∷◌, Text, codes, text_eq, arith,
}
use code_contests.Status.{StatusOr, ok}
use code_contests.Retry.{retry_if_fail}
use code_contests.Results.{ExecutionResult, MultiTestResult}
use code_contests.Pool.{
  Pool, Worker, Reach, started, step, schedules, closes, takes, stops, works, returns,
}
use code_contests.Runner.Task.{
  Job, default_options, sees_none, runs, breaks, publishes, tasks, publish,
}
use code_contests.Runner.Determined.{Deterministic, Agrees, judged, test_determined}
use code_contests.Runner.{
  check_arguments, begin_test, compiled, indices, fresh, collect, Returns, tested,
}
use code_contests.Runner.Examples.{echo, compile, wait, ran}

abbrev both : Job
both = record echo { options = record default_options { num_threads = 2 } }

abbrev outcome : Text → StatusOr ExecutionResult
outcome input = ok (ran input)

begins_both : begin_test compile wait both tt ≡ (compiled (ran []), tt)
unfolding begin_test check_arguments retry_if_fail
begins_both = refl

abbrev Reached : Pool (tasks both) → Type 0
Reached = Reach (tasks both) 2 (indices 0 2) (fresh 2)

abbrev ready : Pool (tasks both)
ready = record {
  backlog = [];
  closed = true;
  queue = some 0 ∷ some 1 ∷ none ∷ none ∷ [];
  workers = Worker.waiting ∷ Worker.waiting ∷ [];
  shared = fresh 2;
  returned = [];
}

reach_ready : Reached ready
unfolding indices
reach_ready = step (step (step started (schedules refl)) (schedules refl)) (closes refl refl)

abbrev second_done : Pool (tasks both)
second_done = record ready {
  queue = none ∷ none ∷ [];
  workers = Worker.running 0 ((tasks both).begin 0) ∷ Worker.waiting ∷ [];
  shared = publish both 1 (ok (ran (codes "b"))) (fresh 2);
  returned = 1 ∷ [];
}

reach_second : Reached second_done
reach_second =
    step
      (step
        (step
          (step (step (step reach_ready (takes 0 refl refl)) (takes 1 refl refl))
            (works 1 refl (sees_none refl)))
          (works 1 refl (runs refl)))
        (works 1 refl (breaks refl)))
      (returns 1 refl (publishes refl))

abbrev last : Pool (tasks both)
last = record ready {
  queue = [];
  workers = Worker.exited ∷ Worker.exited ∷ [];
  shared = publish both 0 (ok (ran (codes "a"))) second_done.shared;
  returned = 0 ∷ 1 ∷ [];
}

reach_last : Reached last
unfolding publish text_eq
reach_last =
    step
      (step
        (step
          (step
            (step (step reach_second (works 0 refl (sees_none refl))) (works 0 refl (runs refl)))
            (works 0 refl (breaks refl)))
          (returns 0 refl (publishes refl)))
        (stops 1 refl refl))
      (stops 0 refl refl)

abbrev results : MultiTestResult
results = record {
  compilation_result = ran [];
  test_results =
      record (ran (codes "a")) { passed = some false }
      ∷ record (ran (codes "b")) { passed = some true }
      ∷ [];
}

Returns-results : Returns compile wait both tt (ok results)
unfolding collect publish text_eq
Returns-results =
    tested begins_both reach_last (record { shut = refl; all_exited = (refl, (refl, tt)) })

Deterministic-both : Deterministic both outcome
Deterministic-both = record { same = λ t r e. rw e refl; uncancelled = λ t e h. absurd (cc) }

test_determined_example : Agrees both outcome (ok results) (judged both outcome 0 both.inputs)
test_determined_example =
    test_determined both outcome Deterministic-both compile wait tt (ran []) tt (ok results)
      (omega arith) begins_both (inl refl) Returns-results
