-- ===== src/Pool/Weights.antt =====
-- Counting in a pool: what stands in the queue, and where the threads are.
use code_contests.Prelude.{
  ℕ, zero, suc, ◌≡◌, refl, Option, none, some, List, [], ◌∷◌, ◌++◌, replicate, All, total,
  All-replicate, arith,
}
use code_contests.Pool.{Worker, waiting, running, exited}

-- Weights: a shutdown signal, a task in the queue, an exited thread, a task in a thread.
abbrev pub signal {ℓ} : {T : Type ℓ} → Option T → ℕ
signal none = 1
signal (some t) = 0

abbrev pub queued {ℓ} : {T : Type ℓ} → (T → ℕ) → Option T → ℕ
queued w none = 0
queued w (some t) = w t

abbrev pub gone : {T L : Type 0} → Worker T L → ℕ
gone exited = 1
gone _ = 0

abbrev pub carried : {T L : Type 0} → (T → ℕ) → Worker T L → ℕ
carried w waiting = 0
carried w (running t l) = w t
carried w exited = 0

-- No task stands behind a shutdown signal.
abbrev pub TasksFirst {ℓ} : {T : Type ℓ} → List (Option T) → Type ℓ
TasksFirst [] = Unit
TasksFirst (some t ∷ q) = TasksFirst q
TasksFirst (none ∷ q) = All (λ o. o ≡ none) q

module _ {ℓ} {A : Type ℓ} (w : A → ℕ) where
  pub total-replicate_zero : (n : ℕ) (a : A) → w a ≡ 0 → total w (replicate n a) ≡ 0
  total-replicate_zero zero a h = refl
  total-replicate_zero (suc n) a h = omega (arith, h, total-replicate_zero n a h)

  pub total-replicate_one : (n : ℕ) (a : A) → w a ≡ 1 → total w (replicate n a) ≡ n
  total-replicate_one zero a h = refl
  total-replicate_one (suc n) a h = omega (arith, h, total-replicate_one n a h)

module _ {ℓ} {T : Type ℓ} where
  pub TasksFirst-schedule :
      (q : List (Option T)) (t : T) → total signal q ≡ 0 → TasksFirst (q ++ some t ∷ [])
  TasksFirst-schedule [] t h = tt
  TasksFirst-schedule (none ∷ q) t h = absurd (omega arith)
  TasksFirst-schedule (some u ∷ q) t h = TasksFirst-schedule q t (omega arith)

  pub TasksFirst-close :
      (q : List (Option T)) (n : ℕ) → total signal q ≡ 0 → TasksFirst (q ++ replicate n none)
  TasksFirst-close [] zero h = tt
  TasksFirst-close [] (suc n) h = All-replicate (λ o. o ≡ none) n none refl
  TasksFirst-close (none ∷ q) n h = absurd (omega arith)
  TasksFirst-close (some u ∷ q) n h = TasksFirst-close q n (omega arith)

  pub TasksFirst-tail : (o : Option T) (q : List (Option T)) → TasksFirst (o ∷ q) → TasksFirst q
  TasksFirst-tail (some t) q h = h
  TasksFirst-tail none [] h = tt
  TasksFirst-tail none (none ∷ q) h = h.1
  TasksFirst-tail none (some t ∷ q) h = absurd (cc (h.0))

  pub total-no_tasks :
      (w : T → ℕ) (q : List (Option T)) → All (λ o. o ≡ none) q → total (queued w) q ≡ 0
  total-no_tasks w [] h = refl
  total-no_tasks w (none ∷ q) h = omega (arith, total-no_tasks w q h.1)
  total-no_tasks w (some t ∷ q) h = absurd (cc (h.0))
