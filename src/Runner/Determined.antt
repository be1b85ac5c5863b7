-- ===== src/Runner/Determined.antt =====
-- `Test` of a program whose runs are determined by their input, up to the time that they take.
use code_contests.Prelude.{
  ℕ, zero, suc, ◌+◌, ◌<◌, false, ◌≡◌, ◌≢◌, refl, sym, ap, ◌∙◌, ◌⊎◌, inl, inr, some, List, [], ◌∷◌,
  length, get_elem?, get_elem?_lt, map, Text, arith, subst, Bool-cases,
}
use code_contests.Prelude.Int.{pos}
use code_contests.Status.{StatusOr, Error, ok, err, code_is_cancelled, ◌>>=◌}
use code_contests.Results.{ExecutionResult, MultiTestResult}
use code_contests.Runner.Task.{Job, text_at, judge, checking_outputs}
use code_contests.Runner.Publishing.{Ran, Witnessed}
use code_contests.Runner.Run.{input_count}
use code_contests.Runner.Correctness.{Accounted, Cancels, test_accounts, test_error}
use code_contests.Runner.Compiling.{begun-result, compiled-result_of}
use code_contests.Runner.{compiled, begin_test, Returns}

-- A result without the time that the run took.
abbrev pub untimed : ExecutionResult → ExecutionResult
untimed x = record x { execution_duration = pos 0 }

abbrev pub untimed_or : StatusOr ExecutionResult → StatusOr ExecutionResult
untimed_or (ok x) = ok (untimed x)
untimed_or (err e) = err e

module _ (j : Job) (outcome : Text → StatusOr ExecutionResult) where
  open j use {options, inputs, Outcome}

  -- The tests as a plain function: the results with their verdicts in order, or the first error.
  pub judged : ℕ → List Text → StatusOr (List ExecutionResult)
  judged i [] = ok []
  judged i (t ∷ ts) = do x ← outcome t; rest ← judged (suc i) ts; ok (judge j i x ∷ rest)

  -- RunCodeOnInput gives for each text what `outcome` says, and no cancellation.
  pub record Deterministic : Type 0 where
    pub same : (t : Text) (r : StatusOr ExecutionResult) → Outcome t r → untimed_or r ≡ outcome t
    pub uncancelled : (t : Text) (e : Error) → outcome t ≡ err e → code_is_cancelled e.code ≡ false

  -- Nothing stops the tests early: it is not asked for, or no result has a negative verdict.
  abbrev pub Unstopped : Type 0
  Unstopped =
      (options.stop_on_first_failure ≡ false)
      ⊎ ((i : ℕ) (x : ExecutionResult)
          → outcome (text_at inputs i) ≡ ok x
          → (judge j i x).passed ≢ some false)

  -- `Test` gives what the function says, and if that is an error, the error of some input.
  abbrev pub Agrees : StatusOr MultiTestResult → StatusOr (List ExecutionResult) → Type 0
  Agrees (ok m) q = q ≡ ok (map untimed m.test_results)
  Agrees (err e) q =
      ((f : Error) × (q ≡ err f))
      × ((i : ℕ) × (i < input_count j) × (outcome (text_at inputs i) ≡ err e))

  untimed-judge : (i : ℕ) (x : ExecutionResult) → untimed (judge j i x) ≡ judge j i (untimed x)
  unfolding judge
  untimed-judge i x = elim (Bool-cases (checking_outputs j)) [
    | inl h ↦ rw h refl
    | inr h ↦ rw h refl
  ]

  -- At place `k` of the results stands what the function says for the input `t`.
  abbrev Gives : ℕ → Text → List ExecutionResult → ℕ → Type 0
  Gives i t rs k =
      (y : ExecutionResult) × (x : ExecutionResult) × (get_elem? rs k ≡ some y)
      × (outcome t ≡ ok x)
      × (untimed y ≡ judge j i x)

  judged-step :
      (i : ℕ) (t : Text) (ts : List Text) (x : ExecutionResult) (xs : List ExecutionResult)
      → outcome t ≡ ok x
      → judged (suc i) ts ≡ ok xs
      → judged i (t ∷ ts) ≡ ok (judge j i x ∷ xs)
  unfolding judged
  judged-step i t ts x xs e f = rw (e, f) refl

  judged_of :
      (i : ℕ) (ts : List Text) (rs : List ExecutionResult)
      → length rs ≡ length ts
      → ((k : ℕ) → k < length ts → Gives (i + k) (text_at ts k) rs k)
      → judged i ts ≡ ok (map untimed rs)
  unfolding judged
  judged_of i [] [] e h = refl
  judged_of i [] (r ∷ rs) e h = absurd (omega arith)
  judged_of i (t ∷ ts) [] e h = absurd (omega arith)
  judged_of i (t ∷ ts) (r ∷ rs) e h =
      let (y, x, at, o, g) = h 0 (omega arith) in
      let rest = judged_of (suc i) ts rs (omega arith) (λ k small.
        subst (λ n. Gives n (text_at ts k) rs k) (omega arith) (h (suc k) (omega arith))) in
      let first : judge j i x ≡ untimed r =
        subst (λ n. judge j n x ≡ untimed r) (omega arith)
          (sym g ∙ ap untimed (let same : y ≡ r = cc in same)) in
      judged-step i t ts x (map untimed rs) o rest ∙ ap (λ z. ok (z ∷ map untimed rs)) first

  -- An input with an error keeps the function from giving a list.
  judged-error :
      (i : ℕ) (ts : List Text) (k : ℕ) (e : Error)
      → k < length ts
      → outcome (text_at ts k) ≡ err e
      → (f : Error) × (judged i ts ≡ err f)
  unfolding judged
  judged-error i [] k e h o = absurd (omega arith)
  judged-error i (t ∷ ts) zero e h o = (e, rw o refl)
  judged-error i (t ∷ ts) (suc k) e h o =
      let (f, g) = judged-error (suc i) ts k e (omega arith) o in judged_or f g (outcome t) refl
    where
      judged_or :
          (f : Error)
          → judged (suc i) ts ≡ err f
          → (r : StatusOr ExecutionResult) → outcome t ≡ r
          → (f : Error) × (judged i (t ∷ ts) ≡ err f)
      judged_or f g (err x) q = (x, rw q refl)
      judged_or f g (ok x) q = (f, rw (q, g) refl)

  module _ (d : Deterministic) where
    Ran-Gives :
        (i : ℕ) (rs : List ExecutionResult) (x : ExecutionResult)
        → get_elem? rs i ≡ some x
        → Ran j i x
        → Gives i (text_at inputs i) rs i
    Ran-Gives i rs x at (x₀, o, e) = (
      x,
      untimed x₀,
      at,
      sym (d.same (text_at inputs i) (ok x₀) o),
      ap untimed e ∙ untimed-judge i x₀,
    )

    Ran-passed :
        (i : ℕ) (x : ExecutionResult)
        → ((y : ExecutionResult)
            → outcome (text_at inputs i) ≡ ok y
            → (judge j i y).passed ≢ some false)
        → Ran j i x
        → x.passed ≢ some false
    Ran-passed i x good (x₀, o, e) bad =
        good (untimed x₀) (sym (d.same (text_at inputs i) (ok x₀) o)) (
          ap (λ (z : ExecutionResult). z.passed) (sym (untimed-judge i x₀))
          ∙ ap (λ (z : ExecutionResult). z.passed) (sym e)
          ∙ bad)

    module _ (rs : List ExecutionResult) (u : Unstopped)
        (each : (i : ℕ) → i < input_count j → Accounted j rs i)
        (len : length rs ≡ input_count j) where
      no-failure :
          ((i : ℕ) (x : ExecutionResult)
            → outcome (text_at inputs i) ≡ ok x
            → (judge j i x).passed ≢ some false)
          → (k : ℕ) (y : ExecutionResult) → get_elem? rs k ≡ some y
          → y.passed ≢ some false
      no-failure good k y at bad =
          let (z, at', cause) = each k (omega (arith, get_elem?_lt rs k at, len)) in
          let same : z ≡ y = cc (sym at' ∙ at) in
          elim cause [
            | inl ran ↦ Ran-passed k y (good k) (subst (Ran j k) same ran) bad
            | inr (empty, _) ↦
                absurd (cc (sym (ap (λ (x : ExecutionResult). x.passed) (sym same ∙ empty)) ∙ bad))
          ]

      no-Witnessed : Witnessed j rs → ⊥
      no-Witnessed (stop, (k, y, at, bad)) = elim u [
        | inl off ↦ cc
        | inr good ↦ no-failure good k y at bad
      ]

      no-Cancels : (i : ℕ) → Cancels j i → ⊥
      no-Cancels i (e, o, c) =
          cc
            (sym c ∙ d.uncancelled (text_at inputs i) e (sym (d.same (text_at inputs i) (err e) o)))

      each-Gives : (i : ℕ) → i < input_count j → Gives i (text_at inputs i) rs i
      each-Gives i h =
          let (x, at, cause) = each i h in
          elim cause [
            | inl ran ↦ Ran-Gives i rs x at ran
            | inr (_, inl w) ↦ absurd (no-Witnessed w)
            | inr (_, inr c) ↦ absurd (no-Cancels i c)
          ]

      all_given : judged 0 inputs ≡ ok (map untimed rs)
      all_given =
          judged_of 0 inputs rs len
            (λ k h. subst (λ n. Gives n (text_at inputs k) rs k) (omega arith) (each-Gives k h))

    module _ {W : Type 0} (compile_code : ℕ → W → StatusOr ExecutionResult × W) (pause : W → W)
        (w : W) (c : ExecutionResult) (w' : W) where
      failed_at :
          (e : Error)
          → begin_test compile_code pause j w ≡ (compiled c, w')
          → Returns compile_code pause j w (err e)
          → (i : ℕ) × (i < input_count j) × (outcome (text_at inputs i) ≡ err e)
      failed_at e b t =
          let (accepted, good, _) = begun-result compile_code pause j w c w' b in
          elim (test_error compile_code pause j w e t) [
            | inl refused ↦ absurd (cc (sym accepted ∙ refused))
            | inr (inl bad) ↦ absurd (cc (sym good ∙ bad))
            | inr (inr (i, h, o)) ↦ (i, h, sym (d.same (text_at inputs i) (err e) o))
          ]

      -- Let the runs of a program be determined by their input, up to the time that they take, and
      -- let none be cancelled. With at least one thread, however the threads are scheduled, and if
      -- no test stops the others, `Test` behind a successful compilation gives what a plain
      -- function over the inputs gives: the results with their verdicts, in order and up to the
      -- times; or, where that function gives an error, the error of one of the runs.
      pub test_determined :
          (r : StatusOr MultiTestResult)
          → 0 < options.num_threads
          → begin_test compile_code pause j w ≡ (compiled c, w')
          → Unstopped
          → Returns compile_code pause j w r
          → Agrees r (judged 0 inputs)
      test_determined (ok m) h b u t =
          let (len, each) =
            test_accounts compile_code pause j w m h t
              (compiled-result_of compile_code pause j w m c w' b t) in
          all_given m.test_results u each len
      test_determined (err e) h b u t =
          let (i, small, o) = failed_at e b t in (judged-error 0 inputs i e small o, (i, small, o))
