-- ===== src/Runner/Correctness.antt =====
-- What the value that `Test` returns says of the runs.
use code_contests.Prelude.{
  ℕ, ◌<◌, true, ◌≡◌, refl, sym, ◌∙◌, ◌⊎◌, inl, inr, some, List, [], ◌∷◌, length, get_elem?,
  get_elem?_of_lt, total, All, replicate, ◌==◌, arith, Bool-cases, ap, subst,
}
use code_contests.Status.{StatusOr, Error, ok, err, ok_status, code_is_cancelled}
use code_contests.Status.Laws.{>>-eq-ok, >>-eq-err}
use code_contests.Retry.{retry_if_fail}
use code_contests.Results.{ExecutionResult, MultiTestResult, default_result, success}
use code_contests.Pool.{Pool, Reach, Joined}
use code_contests.Pool.Completion.{all_returned, no_threads}
use code_contests.Runner.Task.{Job, Shared, text_at, tasks}
use code_contests.Runner.Publishing.{is_at, Ran, Witnessed}
use code_contests.Runner.Tracking.{Handled}
use code_contests.Runner.Run.{count-indices, input_count, all_tasks, RunInv, Reach-RunInv}
use code_contests.Runner.Beginning.{begin_cases, early_compilation, early_result}
use code_contests.Runner.{
  fresh, collect, check_arguments, compiled, begin_test, Returns, early, tested,
  max_compilation_duration,
}

All-counted {κ} : (P : ℕ → Type κ) (i : ℕ) (xs : List ℕ) → All P xs → 0 < total (is_at i) xs → P i
All-counted P i [] h c = absurd (omega arith)
All-counted P i (x ∷ xs) h c = elim (Bool-cases (i == x)) [
  | inl same ↦ let e : x ≡ i = ground arith in subst P e h.0
  | inr other ↦ All-counted P i xs h.1 (ground arith)
]

module _ (j : Job) where
  open j use {options, inputs, Outcome}

  -- RunCodeOnInput itself can give a cancellation for input `i`.
  abbrev pub Cancels : ℕ → Type 0
  Cancels i = (e : Error) × Outcome (text_at inputs i) (err e) × (code_is_cancelled e.code ≡ true)

  -- The two reasons for which a test has no result.
  abbrev pub Excused : List ExecutionResult → ℕ → Type 0
  Excused rs i = Witnessed j rs ⊎ Cancels i

  -- What the result at place `i` stands for.
  abbrev pub Accounted : List ExecutionResult → ℕ → Type 0
  Accounted rs i =
      (x : ExecutionResult) × (get_elem? rs i ≡ some x)
      × (Ran j i x ⊎ ((x ≡ default_result) × Excused rs i))

  module _ {n : ℕ} {p : Pool (tasks j)}
      (r : Reach (tasks j) n (all_tasks j) (fresh (input_count j)) p) where
    run : RunInv j p
    run = Reach-RunInv j r

    Handled-at : 0 < n → Joined (tasks j) p → (i : ℕ) → i < input_count j → Handled j p.shared i
    Handled-at h joined i small = All-counted (Handled j p.shared) i p.returned run.handled (
        ground (
          arith,
          (all_returned (tasks j) h r joined).0 (is_at i),
          count-indices i 0 (input_count j),
        ))

    excused :
        p.shared.overall_status ≡ ok_status
        → (i : ℕ) → (p.shared.should_stop ≡ true) ⊎ Cancels i
        → Excused p.shared.test_results i
    excused good i (inr c) = inr c
    excused good i (inl b) = elim (run.fine.stopped b) [
      | inl (e, bad) ↦ absurd (cc)
      | inr w ↦ inl w
    ]

    Accounted-at :
        p.shared.overall_status ≡ ok_status
        → (i : ℕ) → i < input_count j
        → Handled j p.shared i
        → Accounted p.shared.test_results i
    Accounted-at good i small (inl (x, e, ran)) = (x, e, inl ran)
    Accounted-at good i small (inr late) =
        let (x, e) = get_elem?_of_lt p.shared.test_results i (omega (arith, run.fine.len)) in
        (
          x,
          e,
          elim (run.fine.entries i x e) [
            | inl d ↦ inr (d, excused good i late)
            | inr (ran, _) ↦ inl ran
          ],
        )

  pub collect_ok :
      (c : ExecutionResult) (s : Shared) (m : MultiTestResult)
      → collect c s ≡ ok m
      → (s.overall_status ≡ ok_status)
        × (m.test_results ≡ s.test_results)
        × (m.compilation_result ≡ c)
  unfolding collect
  collect_ok c s m e =
      let (good, same) =
        >>-eq-ok s.overall_status (record { compilation_result = c; test_results = s.test_results })
          m e in
      (
        good,
        ap (λ (x : MultiTestResult). x.test_results) (sym same),
        ap (λ (x : MultiTestResult). x.compilation_result) (sym same),
      )

  collect_err :
      (c : ExecutionResult) (s : Shared) (x : Error)
      → collect c s ≡ err x
      → s.overall_status ≡ err x
  unfolding collect
  collect_err c s x e =
      >>-eq-err s.overall_status (record { compilation_result = c; test_results = s.test_results })
        x e

module _ {W : Type 0} (compile_code : ℕ → W → StatusOr ExecutionResult × W) (pause : W → W)
    (j : Job) (w : W) where
  accounts :
      (r : StatusOr MultiTestResult) (m : MultiTestResult)
      → 0 < j.options.num_threads
      → Returns compile_code pause j w r
      → r ≡ ok m
      → m.compilation_result.program_status ≡ success
      → (length m.test_results ≡ input_count j)
        × ((i : ℕ) → i < input_count j → Accounted j m.test_results i)
  accounts r m h (early {w' = w'} e) g good =
      let (bad, _) = early_result compile_code pause j w r w' m e g in absurd (ground arith)
  accounts r m h (tested {c} {p = p} e reach joined) g good =
      let (fine, same, _) = collect_ok j c p.shared m g in
      (
        ap length same ∙ (run j reach).fine.len,
        λ i small.
            subst (λ rs. Accounted j rs i) (sym same)
              (Accounted-at j reach fine i small (Handled-at j reach h joined i small)),
      )

  -- With at least one thread, let `Test` return a value whose compilation succeeded. Then it has one
  -- result for each input, and each of them is accounted for: it is the stored form of a result that
  -- RunCodeOnInput gave for this very input, with the verdict of the comparison with this input's
  -- expected output if outputs are checked; or it is the empty result, and then either early stopping
  -- was asked for and some result has a negative verdict, or RunCodeOnInput itself gave a
  -- cancellation for this input.
  pub test_accounts :
      (m : MultiTestResult)
      → 0 < j.options.num_threads
      → Returns compile_code pause j w (ok m)
      → m.compilation_result.program_status ≡ success
      → (length m.test_results ≡ input_count j)
        × ((i : ℕ) → i < input_count j → Accounted j m.test_results i)
  test_accounts m h r good = accounts (ok m) m h r refl good

  error_from :
      (r : StatusOr MultiTestResult) (x : Error)
      → Returns compile_code pause j w r
      → r ≡ err x
      → (check_arguments j ≡ err x)
        ⊎ ((retry_if_fail (compile_code max_compilation_duration) pause w).0 ≡ err x)
        ⊎ ((i : ℕ) × (i < input_count j) × j.Outcome (text_at j.inputs i) (err x))
  error_from r x (early {w' = w'} e) g = elim (begin_cases compile_code pause j w r w' e) [
    | inl (y, a, b, _) ↦ inl (ground arith)
    | inr (_, q, _) ↦
        elim (early_compilation (retry_if_fail (compile_code max_compilation_duration) pause w).0 r
          q) [ inl (y, a, b) ↦ inr (inl (ground arith)) | inr (c, _, _, b) ↦ absurd (cc) ]
  ]
  error_from r x (tested {c} {p = p} e reach joined) g =
      inr (inr ((run j reach).fine.failed x (collect_err j c p.shared x g)))

  -- An error of `Test` has a cause with this very code and message: the arguments were refused, the
  -- compilation failed in all attempts (or was cancelled), or RunCodeOnInput gave it for an input.
  pub test_error :
      (x : Error)
      → Returns compile_code pause j w (err x)
      → (check_arguments j ≡ err x)
        ⊎ ((retry_if_fail (compile_code max_compilation_duration) pause w).0 ≡ err x)
        ⊎ ((i : ℕ) × (i < input_count j) × j.Outcome (text_at j.inputs i) (err x))
  test_error x r = error_from (err x) x r refl

  threadless :
      (r : StatusOr MultiTestResult) (c : ExecutionResult) (w' : W)
      → j.options.num_threads ≡ 0
      → begin_test compile_code pause j w ≡ (compiled c, w')
      → Returns compile_code pause j w r
      → r ≡ collect c (fresh (input_count j))
  threadless r c w' z b (early e) = absurd (ground arith)
  threadless r c w' z b (tested {c = d} {p = p} e reach joined) =
      let start = subst (λ n. Reach (tasks j) n (all_tasks j) (fresh (input_count j)) p) z reach in
      let untouched = (no_threads (tasks j) start).1 in
      let same : d ≡ c = ground arith in rw (same, untouched)

  -- Without threads no test is run, and `Test` still returns no error: once the compilation
  -- succeeded, every result is the empty one.
  pub test_without_threads :
      (r : StatusOr MultiTestResult) (c : ExecutionResult) (w' : W)
      → j.options.num_threads ≡ 0
      → begin_test compile_code pause j w ≡ (compiled c, w')
      → Returns compile_code pause j w r
      → r
        ≡ ok (record {
          compilation_result = c;
          test_results = replicate (input_count j) default_result;
        })
  unfolding collect
  test_without_threads r c w' z b t = threadless r c w' z b t
