-- ===== src/Pool/Completion.antt =====
-- What the destructor of a pool guarantees when it returns.
use code_contests.Prelude.{
  ℕ, ◌<◌, ◌≡◌, refl, Option, none, some, List, [], ◌∷◌, length, All, total, arith, ap, ◌∙◌,
}
use code_contests.Pool.{
  Tasks, Worker, exited, Pool, Reach, started, step, schedules, closes, takes, stops, works,
  returns, Joined,
}
use code_contests.Pool.Weights.{signal, queued, gone, carried}
use code_contests.Pool.Invariant.{Reach-Inv}

total-gone :
    {T L : Type 0} (ws : List (Worker T L)) → All (λ w. w ≡ exited) ws → total gone ws ≡ length ws
total-gone [] h = refl
total-gone (w ∷ ws) h = rw h.0 (omega (arith, total-gone ws h.1))

total-carried :
    {T L : Type 0} (f : T → ℕ) (ws : List (Worker T L))
    → All (λ w. w ≡ exited) ws
    → total (carried f) ws ≡ 0
total-carried f [] h = refl
total-carried f (w ∷ ws) h = rw h.0 (omega (arith, total-carried f ws h.1))

length-eq-zero {ℓ} : {A : Type ℓ} (xs : List A) → length xs ≡ 0 → xs ≡ []
length-eq-zero [] h = refl
length-eq-zero (x ∷ xs) h = absurd (omega arith)

queue-nil {ℓ} :
    {T : Type ℓ} (q : List (Option T)) → total signal q ≡ 0 → total (queued (λ _. 1)) q ≡ 0 → q ≡ []
queue-nil [] s t = refl
queue-nil (none ∷ q) s t = absurd (omega arith)
queue-nil (some x ∷ q) s t = absurd (omega arith)

module _ (k : Tasks) {n : ℕ} {tasks : List k.Task} {s : k.Shared} {p : Pool k} where
  -- When the destructor of a pool with at least one thread returns, every scheduled task has
  -- returned, each exactly as often as it was scheduled: for every weight of the tasks the two sums
  -- agree. Nothing is left in the queue.
  pub all_returned :
      0 < n
      → Reach k n tasks s p
      → Joined k p
      → ((w : k.Task → ℕ) → total w p.returned ≡ total w tasks) × (p.queue ≡ [])
  all_returned h r j = (
    λ w. omega (
      arith,
      kept w,
      no_tasks w,
      total-carried w p.workers all_exited,
      ap (total w) (finished shut),
    ),
    queue-nil p.queue no_signals (no_tasks (λ _. 1)),
  )
    where
      open (Reach-Inv k r) use {size, signals, finished, late, kept}
      open j use {shut, all_exited}

      exits : total gone p.workers ≡ n
      exits = total-gone p.workers all_exited ∙ size

      no_signals : total signal p.queue ≡ 0
      no_signals = ground (arith, signals, exits)

      no_tasks : (w : k.Task → ℕ) → total (queued w) p.queue ≡ 0
      no_tasks w = late w (omega (arith, exits))

module _ (k : Tasks) {tasks : List k.Task} {s : k.Shared} where
  threadless : {p : Pool k} → Reach k 0 tasks s p → p.workers ≡ []
  threadless {p} r = length-eq-zero p.workers (Reach-Inv k r).size

  -- A pool with no threads runs nothing: in every state that it reaches no task has returned and the
  -- tasks' shared state is as it was, also in those where the destructor has returned.
  pub no_threads : {p : Pool k} → Reach k 0 tasks s p → (p.returned ≡ []) × (p.shared ≡ s)
  no_threads started = (refl, refl)
  no_threads (step r (schedules e)) = no_threads r
  no_threads (step r (closes e o)) = no_threads r
  no_threads (step r (takes i e q)) = no_threads r
  no_threads (step r (stops i e q)) = no_threads r
  no_threads (step r (works i e m)) = absurd (cc (threadless r))
  no_threads (step r (returns i e m)) = absurd (cc (threadless r))
