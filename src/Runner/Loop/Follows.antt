-- ===== src/Runner/Loop/Follows.antt =====
-- What `Test` with one thread returns, the loop gives.
use code_contests.Prelude.{
  ℕ, zero, suc, true, false, ◌≡◌, refl, sym, ap, ◌∙◌, inl, inr, List, [], ◌∷◌, ◌++◌, replicate,
  Bool-cases, arith, subst,
}
use code_contests.Status.{StatusOr, Status, Error, ok, err, code_is_cancelled, ◌>>◌}
use code_contests.Results.{ExecutionResult, MultiTestResult, default_result}
use code_contests.Pool.{Pool, Reach, Joined}
use code_contests.Pool.Order.{append-step}
use code_contests.Pool.Serial.{Serial, one_thread}
use code_contests.Runner.Task.{Job, Shared, text_at, judge, stops_all, publish, tasks}
use code_contests.Runner.Run.{input_count, all_tasks}
use code_contests.Runner.Correctness.{Cancels}
use code_contests.Runner.{indices, fresh, collect, compiled, begin_test, Returns, early, tested}
use code_contests.Runner.Alone.{Does, Executes-Does, Serial-stopped}
use code_contests.Runner.Loop.{
  Loop, Before, stored-publish, no_error-publish, Before-result, Before-cancellation,
}

module _ (j : Job) where
  open j use {inputs, Outcome}

  abbrev Finishes : ℕ → ℕ → List ExecutionResult → Shared → Type 0
  Finishes i m done s' =
      (rs : List ExecutionResult) × (s'.test_results ≡ done ++ rs) × Loop j i m s'.overall_status rs

  module _ (i m : ℕ) (done : List ExecutionResult) (s s₁ s' : Shared)
      (b : Before j i (suc m) done s) (rest : Serial (tasks j) s₁ (indices (suc i) m) s')
      (next : (done' : List ExecutionResult)
        → Before j (suc i) m done' s₁
        → Finishes (suc i) m done' s') where
    -- Behind a result that fails, nothing is run.
    after_failure :
        (x : ExecutionResult)
        → Outcome (text_at inputs i) (ok x)
        → s₁ ≡ publish j i (ok x) s
        → stops_all j i x ≡ true
        → Finishes i (suc m) done s'
    unfolding publish
    after_failure x o e stop =
        let shut : s₁.should_stop ≡ true = rw (e, stop) refl in
        let same = Serial-stopped j s₁ (indices (suc i) m) s' shut rest ∙ e in
        (
          judge j i x ∷ replicate m default_result,
          ap (λ (s : Shared). s.test_results) same ∙ stored-publish j i m done s x b,
          inl (
            x,
            o,
            refl,
            inr (
              stop,
              ap (λ (s : Shared). s.overall_status) same ∙ no_error-publish j i m done s (ok x) b,
              refl,
            ),
          ),
        )

    after_result :
        (x : ExecutionResult)
        → Outcome (text_at inputs i) (ok x)
        → s₁ ≡ publish j i (ok x) s
        → stops_all j i x ≡ false
        → Finishes i (suc m) done s'
    unfolding publish
    after_result x o e more =
        let (rs, stored, loop) = next (done ++ judge j i x ∷ []) (
          subst (Before j (suc i) m (done ++ judge j i x ∷ [])) (sym e)
            (Before-result j i m done s x b more)) in
        (
          judge j i x ∷ rs,
          stored ∙ append-step done (judge j i x) rs,
          inl (x, o, refl, inl (more, loop)),
        )

    after_error :
        (e : Error)
        → Outcome (text_at inputs i) (err e)
        → code_is_cancelled e.code ≡ false
        → s₁ ≡ publish j i (err e) s
        → Finishes i (suc m) done s'
    unfolding publish
    after_error e o c p =
        let shut : s₁.should_stop ≡ true = rw p refl in
        let same = Serial-stopped j s₁ (indices (suc i) m) s' shut rest ∙ p in
        (
          replicate (suc m) default_result,
          ap (λ (s : Shared). s.test_results) same ∙ b.stored,
          inr (
              inl (
                e,
                o,
                c,
                ap (λ (s : Shared). s.overall_status) same
                    ∙ no_error-publish j i m done s (err e) b,
                refl,
              )),
        )

    after_cancellation : Cancels j i → s₁ ≡ s → Finishes i (suc m) done s'
    after_cancellation c e =
        let (rs, stored, loop) = next (done ++ default_result ∷ []) (
          subst (Before j (suc i) m (done ++ default_result ∷ [])) (sym e)
            (Before-cancellation j i m done s b)) in
        (
          default_result ∷ rs,
          stored ∙ append-step done default_result rs,
          inr (inr (c, refl, loop)),
        )

    after : Does j s i s₁ → Finishes i (suc m) done s'
    after (inl (x, o, e)) = elim (Bool-cases (stops_all j i x)) [
      | inl stop ↦ after_failure x o e stop
      | inr more ↦ after_result x o e more
    ]
    after (inr (inl (e, o, c, p))) = after_error e o c p
    after (inr (inr (c, e))) = after_cancellation c e

  Serial-Finishes :
      (m i : ℕ) (done : List ExecutionResult) (s s' : Shared)
      → Before j i m done s
      → Serial (tasks j) s (indices i m) s'
      → Finishes i m done s'
  unfolding indices
  Serial-Finishes zero i done s s' b h = (
    [],
    ap (λ (s : Shared). s.test_results) h ∙ b.stored,
    (ap (λ (s : Shared). s.overall_status) h ∙ b.no_error, refl),
  )
  Serial-Finishes (suc m) i done s s' b (s₁, x, h) =
      after i m done s s₁ s' b h (λ done' b'. Serial-Finishes m (suc i) done' s₁ s' b' h)
        (Executes-Does j s i s₁ b.goes_on x)

  pool-Loop :
      {p : Pool (tasks j)}
      → Reach (tasks j) 1 (all_tasks j) (fresh (input_count j)) p
      → Joined (tasks j) p
      → Loop j 0 (input_count j) p.shared.overall_status p.shared.test_results
  pool-Loop {p} r joined =
      let (rs, e, loop) =
        Serial-Finishes (input_count j) 0 [] (fresh (input_count j)) p.shared
          (record { so_far = refl; goes_on = refl; no_error = refl; stored = refl })
          (one_thread (tasks j) (all_tasks j) (fresh (input_count j)) r joined) in
      subst (Loop j 0 (input_count j) p.shared.overall_status) (sym e) loop

module _ {W : Type 0} (compile_code : ℕ → W → StatusOr ExecutionResult × W) (pause : W → W)
    (j : Job) (w : W) where
  pub looped :
      (r : StatusOr MultiTestResult) (c : ExecutionResult) (w' : W)
      → j.options.num_threads ≡ 1
      → begin_test compile_code pause j w ≡ (compiled c, w')
      → Returns compile_code pause j w r
      → (u : Status) × (rs : List ExecutionResult) × Loop j 0 (input_count j) u rs
        × (r ≡ (u >> ok (record { compilation_result = c; test_results = rs })))
  unfolding collect
  looped r c w' one b (early e) = absurd (ground arith)
  looped r c w' one b (tested {c = d} {p = p} e reach joined) =
      let single =
        subst (λ n. Reach (tasks j) n (all_tasks j) (fresh (input_count j)) p) one reach in
      let same : d ≡ c = ground arith in
      (p.shared.overall_status, p.shared.test_results, pool-Loop j single joined, rw same refl)
