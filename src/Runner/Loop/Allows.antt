-- ===== src/Runner/Loop/Allows.antt =====
-- What the loop gives, `Test` with one thread can return.
use code_contests.Prelude.{
  ℕ, zero, suc, true, false, ◌≡◌, ◌↔◌, refl, sym, ap, ◌∙◌, inl, inr, List, [], ◌∷◌, ◌++◌, replicate,
  subst, ap₂,
}
use code_contests.Status.{StatusOr, Status, Error, ok, err, code_is_cancelled, ◌>>◌}
use code_contests.Results.{ExecutionResult, MultiTestResult, default_result}
use code_contests.Pool.{Reach}
use code_contests.Pool.Order.{append-step}
use code_contests.Pool.Serial.{here, move, Executes, Serial, one_thread_iff}
use code_contests.Runner.Task.{
  Job, Shared, text_at, judge, stops_all, publish, sees_stop, sees_none, runs, breaks, retries,
  gives_up, skips, publishes, tasks,
}
use code_contests.Runner.Run.{input_count, all_tasks}
use code_contests.Runner.Correctness.{Cancels}
use code_contests.Runner.Loop.{
  Loop, Before, stored-publish, no_error-publish, Before-result, Before-cancellation,
}
use code_contests.Runner.Loop.Follows.{looped}
use code_contests.Runner.{indices, fresh, collect, compiled, begin_test, Returns, tested}

module _ (j : Job) where
  open j use {inputs, Outcome}

  -- The runs of a task that ends with a result, an error that is met in all attempts, or a
  -- cancellation; and of one that should stop.
  runs-ok :
      (s : Shared) (t : ℕ) (x : ExecutionResult)
      → s.should_stop ≡ false
      → Outcome (text_at inputs t) (ok x)
      → Executes (tasks j) s t (publish j t (ok x) s)
  runs-ok s t x on o =
      (s, _, move (move (move here (sees_none on)) (runs o)) (breaks refl), publishes refl)

  runs-err :
      (s : Shared) (t : ℕ) (e : Error)
      → s.should_stop ≡ false
      → Outcome (text_at inputs t) (err e)
      → code_is_cancelled e.code ≡ false
      → Executes (tasks j) s t (publish j t (err e) s)
  runs-err s t e on o c =
      let first = move (move (move here (sees_none on)) (runs o)) (retries c) in
      let second = move (move (move first (sees_none on)) (runs o)) (retries c) in
      let third = move (move (move second (sees_none on)) (runs o)) (retries c) in
      (s, _, move third gives_up, publishes c)

  runs-cancelled :
      (s : Shared) (t : ℕ) → s.should_stop ≡ false → Cancels j t → Executes (tasks j) s t s
  runs-cancelled s t on (e, o, c) =
      (s, _, move (move (move here (sees_none on)) (runs o)) (breaks c), skips c)

  runs-stopped : (s : Shared) (t : ℕ) → s.should_stop ≡ true → Executes (tasks j) s t s
  runs-stopped s t b = (s, _, move (move here (sees_stop b)) (breaks refl), skips refl)

  Serial-rest : (s : Shared) (ts : List ℕ) → s.should_stop ≡ true → Serial (tasks j) s ts s
  Serial-rest s [] b = refl
  Serial-rest s (t ∷ ts) b = (s, runs-stopped s t b, Serial-rest s ts b)

  -- The tasks from input `i` on can lead to this status and these results.
  abbrev Leads : ℕ → ℕ → List ExecutionResult → Shared → Status → List ExecutionResult → Type 0
  Leads i m done s u rs =
      (s' : Shared) × Serial (tasks j) s (indices i m) s'
      × (s'.overall_status ≡ u)
      × (s'.test_results ≡ done ++ rs)

  shut-publish :
      (i : ℕ) (x : ExecutionResult) (s : Shared)
      → stops_all j i x ≡ true
      → (publish j i (ok x) s).should_stop ≡ true
  unfolding publish
  shut-publish i x s h = rw h refl

  shut-error : (i : ℕ) (e : Error) (s : Shared) → (publish j i (err e) s).should_stop ≡ true
  unfolding publish
  shut-error i e s = refl

  kept-error :
      (i : ℕ) (e : Error) (s : Shared) → (publish j i (err e) s).test_results ≡ s.test_results
  unfolding publish
  kept-error i e s = refl

  Loop-Leads :
      (m i : ℕ) (done : List ExecutionResult) (s : Shared) (u : Status) (rs : List ExecutionResult)
      → Before j i m done s
      → Loop j i m u rs
      → Leads i m done s u rs
  unfolding indices
  Loop-Leads zero i done s u rs b (e, f) =
      (s, refl, b.no_error ∙ sym e, b.stored ∙ ap (λ x. done ++ x) (sym f))
  Loop-Leads (suc m) i done s u [] b h = absurd h
  Loop-Leads (suc m) i done s u (x ∷ rs) b (inl (x₀, o, e, inl (on, h))) =
      let (s', c, f, g) =
        Loop-Leads m (suc i) (done ++ judge j i x₀ ∷ []) (publish j i (ok x₀) s) u rs
          (Before-result j i m done s x₀ b on) h in
      (
        s',
        (publish j i (ok x₀) s, runs-ok s i x₀ b.goes_on o, c),
        f,
        g ∙ append-step done (judge j i x₀) rs ∙ ap (λ y. done ++ y ∷ rs) (sym e),
      )
  Loop-Leads (suc m) i done s u (x ∷ rs) b (inl (x₀, o, e, inr (stop, f, g))) = (
    publish j i (ok x₀) s,
    (
      publish j i (ok x₀) s,
      runs-ok s i x₀ b.goes_on o,
      Serial-rest _ (indices (suc i) m) (shut-publish i x₀ s stop),
    ),
    no_error-publish j i m done s (ok x₀) b ∙ sym f,
    stored-publish j i m done s x₀ b
        ∙ ap (λ y. done ++ y ∷ replicate m default_result) (sym e)
        ∙ ap (λ y. done ++ x ∷ y) (sym g),
  )
  Loop-Leads (suc m) i done s u (x ∷ rs) b (inr (inl (e, o, c, f, g))) = (
    publish j i (err e) s,
    (
      publish j i (err e) s,
      runs-err s i e b.goes_on o c,
      Serial-rest _ (indices (suc i) m) (shut-error i e s),
    ),
    no_error-publish j i m done s (err e) b ∙ sym f,
    kept-error i e s ∙ b.stored ∙ ap (λ y. done ++ y) (sym g),
  )
  Loop-Leads (suc m) i done s u (x ∷ rs) b (inr (inr (c, e, h))) =
      let (s', k, f, g) =
        Loop-Leads m (suc i) (done ++ default_result ∷ []) s u rs
          (Before-cancellation j i m done s b) h in
      (
        s',
        (s, runs-cancelled s i b.goes_on c, k),
        f,
        g ∙ append-step done default_result rs ∙ ap (λ y. done ++ y ∷ rs) (sym e),
      )

module _ {W : Type 0} (compile_code : ℕ → W → StatusOr ExecutionResult × W) (pause : W → W)
    (j : Job) (w : W) where
  -- The results of the loop behind the compilation result `c`.
  abbrev pub Loops : ExecutionResult → StatusOr MultiTestResult → Type 0
  Loops c r =
      (u : Status) × (rs : List ExecutionResult) × Loop j 0 (input_count j) u rs
      × (r ≡ (u >> ok (record { compilation_result = c; test_results = rs })))

  Loops-Returns :
      (r : StatusOr MultiTestResult) (c : ExecutionResult) (w' : W)
      → j.options.num_threads ≡ 1
      → begin_test compile_code pause j w ≡ (compiled c, w')
      → Loops c r
      → Returns compile_code pause j w r
  unfolding collect
  Loops-Returns r c w' one b (u, rs, h, e) =
      let (s', serial, f, g) =
        Loop-Leads j (input_count j) 0 [] (fresh (input_count j)) u rs
          (record { so_far = refl; goes_on = refl; no_error = refl; stored = refl }) h in
      let (p, reach, joined, same) =
        (one_thread_iff (tasks j) (all_tasks j) (fresh (input_count j)) s').1 serial in
      subst (Returns compile_code pause j w)
        (ap (λ (s : Shared). collect c s) same
          ∙ ap₂ (λ v xs. v >> ok (record { compilation_result = c; test_results = xs })) f g
          ∙ sym e)
        (tested b
          (subst (λ n. Reach (tasks j) n (all_tasks j) (fresh (input_count j)) p) (sym one) reach)
          joined)

  -- With one thread `Test` is a loop over the inputs. Behind a successful compilation it can return
  -- a result exactly if the loop gives it. In the loop each input in order is tested, and its result
  -- is stored with its verdict; a result that fails ends the loop if testing stops at a failure, and
  -- so does an error, which becomes the status; a cancellation by RunCodeOnInput itself is passed
  -- over; behind the end of the loop every place is empty. The result is the error of this status,
  -- or else the list.
  pub test-Loops_iff :
      (r : StatusOr MultiTestResult) (c : ExecutionResult) (w' : W)
      → j.options.num_threads ≡ 1
      → begin_test compile_code pause j w ≡ (compiled c, w')
      → Returns compile_code pause j w r ↔ Loops c r
  test-Loops_iff r c w' one b =
      (looped compile_code pause j w r c w' one b, Loops-Returns r c w' one b)
