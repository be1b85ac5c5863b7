-- ===== src/Runner/Publishing.antt =====
-- What the shared variables say of the tasks that have returned, and that storing a result keeps it.
use code_contests.Prelude.{
  ℕ, ◌<◌, true, false, ◌≡◌, refl, sym, ◌∙◌, ◌⊎◌, inl, inr, some, List, ◌∷◌, length, get_elem?, set,
  total, length-set, get_elem?-set_self, get_elem?-set_ne, if◌then◌else◌, ◌==◌, arith, ℕ_discrete,
  Bool-cases, subst,
}
use code_contests.Status.{Status, Error, ok, err, ok_status}
use code_contests.Results.{ExecutionResult, default_result}
use code_contests.Runner.Task.{Job, Shared, text_at, judge, stops_all, publish}

-- The weight that counts `i`.
abbrev pub is_at : ℕ → ℕ → ℕ
is_at i k = if i == k then 1 else 0

module _ (j : Job) where
  open j use {absl, options, inputs, Outcome}

  -- `x` is the stored form of a result that RunCodeOnInput gave for input `i`.
  abbrev pub Ran : ℕ → ExecutionResult → Type 0
  Ran i x = (x₀ : ExecutionResult) × Outcome (text_at inputs i) (ok x₀) × (x ≡ judge j i x₀)

  -- Testing may stop early, and some test has a negative verdict.
  abbrev pub Witnessed : List ExecutionResult → Type 0
  Witnessed rs =
      (options.stop_on_first_failure ≡ true)
      × ((i : ℕ) × (x : ExecutionResult) × (get_elem? rs i ≡ some x) × (x.passed ≡ some false))

  abbrev pub IsError : Status → Type 0
  IsError s = (e : Error) × (s ≡ err e)

  -- A place of the results is filled only by its own task, which has returned.
  abbrev pub Entry : List ℕ → ℕ → ExecutionResult → Type 0
  Entry done i x = (x ≡ default_result) ⊎ (Ran i x × (0 < total (is_at i) done))

  pub record Fine (n : ℕ) (done : List ℕ) (s : Shared) : Type 0 where
    pub len : length s.test_results ≡ n
    pub entries :
        (i : ℕ) (x : ExecutionResult) → get_elem? s.test_results i ≡ some x → Entry done i x
    pub stopped : s.should_stop ≡ true → IsError s.overall_status ⊎ Witnessed s.test_results
    pub failed :
        (e : Error)
        → s.overall_status ≡ err e
        → (i : ℕ) × (i < n) × Outcome (text_at inputs i) (err e)

  Entry-more :
      (done : List ℕ) (t i : ℕ) (x : ExecutionResult) → Entry done i x → Entry (t ∷ done) i x
  Entry-more done t i x (inl e) = inl e
  Entry-more done t i x (inr (r, h)) = inr (r, omega arith)

  pub skip-Fine : {n : ℕ} {done : List ℕ} {s : Shared} (t : ℕ) → Fine n done s → Fine n (t ∷ done) s
  skip-Fine {n} {done} t f = record {
    len = f.len;
    entries = λ i x e. Entry-more done t i x (f.entries i x e);
    stopped = f.stopped;
    failed = f.failed;
  }

  update-cases :
      (s u : Status)
      → ((s ≡ ok_status) × (absl.update s u ≡ u)) ⊎ (IsError s × (absl.update s u ≡ s))
  update-cases (ok tt) u = inl (refl, absl.update-ok u)
  update-cases (err e) u = inr ((e, refl), absl.update-err e u)

  module _ {n : ℕ} {done : List ℕ} {s : Shared} (t : ℕ) (f : Fine n done s) where
    pub error-Fine :
        (e : Error)
        → t < n
        → Outcome (text_at inputs t) (err e)
        → Fine n (t ∷ done) (publish j t (err e) s)
    unfolding publish
    error-Fine e h o = record {
      len = f.len;
      entries = λ i x g. Entry-more done t i x (f.entries i x g);
      stopped = λ _. inl (ground (arith, update-cases s.overall_status (err e)));
      failed = λ e' g. elim (update-cases s.overall_status (err e)) [
        | inl (_, u) ↦ (t, h, subst (λ x. Outcome (text_at inputs t) (err x)) (ground arith) o)
        | inr (_, u) ↦ f.failed e' (sym u ∙ g)
      ];
    }

    module _ (x : ExecutionResult) (small : t < n) (once : total (is_at t) done ≡ 0) where
      -- The place was empty before.
      was_empty : (y : ExecutionResult) → get_elem? s.test_results t ≡ some y → y ≡ default_result
      was_empty y e = elim (f.entries t y e) [ inl d ↦ d | inr (_, h) ↦ absurd (omega arith) ]

      Witnessed-set : Witnessed s.test_results → Witnessed (set s.test_results t (judge j t x))
      Witnessed-set (b, (i, y, e, p)) = elim (ℕ_discrete t i) [
        | yes same ↦ absurd (ground (arith, was_empty y))
        | no other ↦ (b, (i, y, get_elem?-set_ne s.test_results t i (judge j t x) other ∙ e, p))
      ]

      placed : get_elem? (set s.test_results t (judge j t x)) t ≡ some (judge j t x)
      placed = get_elem?-set_self s.test_results t (judge j t x) (omega (arith, f.len))

      own-Entry :
          Outcome (text_at inputs t) (ok x)
          → (y : ExecutionResult) → get_elem? (set s.test_results t (judge j t x)) t ≡ some y
          → Entry (t ∷ done) t y
      own-Entry o y e = inr ((x, o, cc placed), ground arith)

      Entry-set :
          Outcome (text_at inputs t) (ok x)
          → (i : ℕ) (y : ExecutionResult)
          → get_elem? (set s.test_results t (judge j t x)) i ≡ some y
          → Entry (t ∷ done) i y
      Entry-set o i y e = elim (ℕ_discrete t i) [
        | yes same ↦
            subst
              (λ k.
                (z : ExecutionResult)
                → get_elem? (set s.test_results t (judge j t x)) k ≡ some z
                → Entry (t ∷ done) k z)
              same (own-Entry o) y e
        | no other ↦
            Entry-more done t i y
              (f.entries i y (sym (get_elem?-set_ne s.test_results t i (judge j t x) other) ∙ e))
      ]

      witness : stops_all j t x ≡ true → Witnessed (set s.test_results t (judge j t x))
      unfolding stops_all judge
      witness h = (ground arith, (t, judge j t x, placed, ground arith))

      still_stopped :
          IsError s.overall_status ⊎ Witnessed s.test_results
          → IsError (absl.update s.overall_status ok_status)
            ⊎ Witnessed (set s.test_results t (judge j t x))
      still_stopped (inl (e, g)) = inl (e, rw g (absl.update-err e ok_status))
      still_stopped (inr w) = inr (Witnessed-set w)

      pub result-Fine : Outcome (text_at inputs t) (ok x) → Fine n (t ∷ done) (publish j t (ok x) s)
      unfolding publish
      result-Fine o = record {
        len = length-set s.test_results t (judge j t x) ∙ f.len;
        entries = Entry-set o;
        stopped = λ h. elim (Bool-cases (stops_all j t x)) [
          | inl now ↦ inr (witness now)
          | inr later ↦ still_stopped (f.stopped (ground arith))
        ];
        failed = λ e g. elim (update-cases s.overall_status ok_status) [
          | inl (_, u) ↦ absurd (cc)
          | inr (_, u) ↦ f.failed e (sym u ∙ g)
        ];
      }
