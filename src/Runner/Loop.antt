-- ===== src/Runner/Loop.antt =====
-- `Test` with one thread, which the options have by default.
pub mod Follows
pub mod Allows
use code_contests.Prelude.{
  ℕ, zero, suc, true, false, ◌≡◌, refl, sym, ap, ◌∙◌, ◌⊎◌, inl, inr, List, [], ◌∷◌, ◌++◌, length,
  set, replicate, Bool-cases, arith, subst,
}
use code_contests.Status.{
  StatusOr, Status, Error, ok, err, ok_status, status, code_is_cancelled, ◌>>◌,
}
use code_contests.Results.{ExecutionResult, MultiTestResult, default_result}
use code_contests.Pool.{Pool, Reach, Joined}
use code_contests.Pool.Order.{append-step}
use code_contests.Pool.Serial.{Serial, one_thread}
use code_contests.Runner.Task.{Job, Shared, text_at, judge, stops_all, publish, tasks}
use code_contests.Runner.Run.{input_count, all_tasks}
use code_contests.Runner.Correctness.{Cancels}
use code_contests.Runner.{indices, fresh, collect, compiled, begin_test, Returns, early, tested}
use code_contests.Runner.Alone.{Does, Executes-Does, Serial-stopped}

set-append {ℓ} :
    {A : Type ℓ} (xs : List A) (y : A) (ys : List A) (v : A)
    → set (xs ++ y ∷ ys) (length xs) v ≡ xs ++ v ∷ ys
set-append [] y ys v = refl
set-append (x ∷ xs) y ys v = ap (λ r. x ∷ r) (set-append xs y ys v)

length-snoc {ℓ} : {A : Type ℓ} (xs : List A) (y : A) → length (xs ++ y ∷ []) ≡ suc (length xs)
length-snoc [] y = refl
length-snoc (x ∷ xs) y = ap suc (length-snoc xs y)

module _ (j : Job) where
  open j use {inputs, Outcome}

  -- The loop: from input `i` on, `m` inputs are left. The status is the one that Test ends with, and
  -- the list holds what is stored for these inputs. A result goes on to the next input, unless it
  -- fails and testing stops at a failure; an error ends the loop; a cancellation by RunCodeOnInput
  -- itself leaves its place empty.
  abbrev pub Loop : ℕ → ℕ → Status → List ExecutionResult → Type 0
  Loop i zero u rs = (u ≡ ok_status) × (rs ≡ [])
  Loop i (suc m) u [] = ⊥
  Loop i (suc m) u (x ∷ rs) =
      ((x₀ : ExecutionResult) × Outcome (text_at inputs i) (ok x₀)
        × (x ≡ judge j i x₀)
        × (((stops_all j i x₀ ≡ false) × Loop (suc i) m u rs)
            ⊎ ((stops_all j i x₀ ≡ true) × (u ≡ ok_status) × (rs ≡ replicate m default_result))))
      ⊎ ((e : Error) × Outcome (text_at inputs i) (err e)
          × (code_is_cancelled e.code ≡ false)
          × (u ≡ err e)
          × (x ∷ rs ≡ replicate (suc m) default_result))
      ⊎ (Cancels j i × (x ≡ default_result) × Loop (suc i) m u rs)

  -- The variables before input `i`.
  pub record Before (i m : ℕ) (done : List ExecutionResult) (s : Shared) : Type 0 where
    pub so_far : length done ≡ i
    pub goes_on : s.should_stop ≡ false
    pub no_error : s.overall_status ≡ ok_status
    pub stored : s.test_results ≡ done ++ replicate m default_result

  pub stored-publish :
      (i m : ℕ) (done : List ExecutionResult) (s : Shared) (x : ExecutionResult)
      → Before i (suc m) done s
      → (publish j i (ok x) s).test_results ≡ done ++ judge j i x ∷ replicate m default_result
  unfolding publish
  stored-publish i m done s x b =
      ap (λ r. set r i (judge j i x)) b.stored
      ∙ subst
          (λ k.
            set (done ++ default_result ∷ replicate m default_result) k (judge j i x)
            ≡ done ++ judge j i x ∷ replicate m default_result)
          b.so_far (set-append done default_result (replicate m default_result) (judge j i x))

  pub no_error-publish :
      (i m : ℕ) (done : List ExecutionResult) (s : Shared) (r : StatusOr ExecutionResult)
      → Before i (suc m) done s
      → (publish j i r s).overall_status ≡ status r
  unfolding publish
  no_error-publish i m done s (ok x) b =
      ap (λ u. j.absl.update u ok_status) b.no_error ∙ j.absl.update-ok ok_status
  no_error-publish i m done s (err e) b =
      ap (λ u. j.absl.update u (err e)) b.no_error ∙ j.absl.update-ok (err e)

  -- A result that stops nothing leads to the next input.
  pub Before-result :
      (i m : ℕ) (done : List ExecutionResult) (s : Shared) (x : ExecutionResult)
      → Before i (suc m) done s
      → stops_all j i x ≡ false
      → Before (suc i) m (done ++ judge j i x ∷ []) (publish j i (ok x) s)
  unfolding publish
  Before-result i m done s x b more = record {
    so_far = length-snoc done (judge j i x) ∙ ap suc b.so_far;
    goes_on = goes_on-publish i s x more b.goes_on;
    no_error = no_error-publish i m done s (ok x) b;
    stored =
        stored-publish i m done s x b
        ∙ sym (append-step done (judge j i x) (replicate m default_result));
  }
    where
      goes_on-publish :
          (i : ℕ) (s : Shared) (x : ExecutionResult)
          → stops_all j i x ≡ false
          → s.should_stop ≡ false
          → (publish j i (ok x) s).should_stop ≡ false
      goes_on-publish i s x more on = rw more on

  -- A cancellation leaves a place empty.
  pub Before-cancellation :
      (i m : ℕ) (done : List ExecutionResult) (s : Shared)
      → Before i (suc m) done s
      → Before (suc i) m (done ++ default_result ∷ []) s
  Before-cancellation i m done s b = record {
    so_far = length-snoc done default_result ∙ ap suc b.so_far;
    goes_on = b.goes_on;
    no_error = b.no_error;
    stored = b.stored ∙ sym (append-step done default_result (replicate m default_result));
  }
