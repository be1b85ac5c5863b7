-- ===== src/Pool/Order.antt =====
-- The order in which a pool runs its tasks.
use code_contests.Prelude.{
  ℕ, zero, suc, ◌+◌, ◌≡◌, refl, sym, ap, ◌∙◌, Option, none, some, List, [], ◌∷◌, ◌++◌, replicate,
  total, total-append, length, arith,
}
use code_contests.Pool.{
  Tasks, Pool, schedules, closes, takes, stops, works, returns, Reach, started, step,
}
use code_contests.Pool.Weights.{queued, carried}
use code_contests.Pool.Invariant.{Reach-Inv}

-- The tasks in a queue.
abbrev pub pending {ℓ} : {T : Type ℓ} → List (Option T) → List T
pending [] = []
pending (none ∷ q) = pending q
pending (some t ∷ q) = t ∷ pending q

module _ {ℓ} {T : Type ℓ} where
  pending-schedule :
      (q : List (Option T)) (t : T) (rest : List T)
      → pending (q ++ some t ∷ []) ++ rest ≡ pending q ++ t ∷ rest
  pending-schedule [] t rest = refl
  pending-schedule (none ∷ q) t rest = pending-schedule q t rest
  pending-schedule (some u ∷ q) t rest = ap (λ x. u ∷ x) (pending-schedule q t rest)

  pending-replicate : (n : ℕ) → pending (replicate {A = Option T} n none) ≡ []
  pending-replicate zero = refl
  pending-replicate (suc n) = pending-replicate n

  pending-close : (q : List (Option T)) (n : ℕ) → pending (q ++ replicate n none) ≡ pending q
  pending-close [] n = pending-replicate n
  pending-close (none ∷ q) n = pending-close q n
  pending-close (some u ∷ q) n = ap (λ x. u ∷ x) (pending-close q n)

  pub append-step : (xs : List T) (t : T) (ys : List T) → (xs ++ t ∷ []) ++ ys ≡ xs ++ t ∷ ys
  append-step [] t ys = refl
  append-step (x ∷ xs) t ys = ap (λ r. x ∷ r) (append-step xs t ys)

module _ (k : Tasks) where
  open k use {Task, Local, Shared, begin, Move}

  -- The tasks that no thread has taken, in the order in which they will be.
  abbrev pub ahead : Pool k → List Task
  ahead p = pending p.queue ++ p.backlog

  pub ahead-schedules :
      (p : Pool k) {t : Task} {rest : List Task}
      → p.backlog ≡ t ∷ rest
      → pending (p.queue ++ some t ∷ []) ++ rest ≡ ahead p
  ahead-schedules p {t} {rest} e =
      pending-schedule p.queue t rest ∙ ap (λ b. pending p.queue ++ b) (sym e)

  pub ahead-closes :
      (p : Pool k) (n : ℕ) → pending (p.queue ++ replicate n none) ++ p.backlog ≡ ahead p
  ahead-closes p n = ap (λ q. q ++ p.backlog) (pending-close p.queue n)

  pub ahead-queue :
      (p : Pool k) {q : List (Option Task)} → p.queue ≡ q → ahead p ≡ pending q ++ p.backlog
  ahead-queue p e = ap (λ x. pending x ++ p.backlog) e

  taken :
      {n : ℕ} {tasks : List Task} {s : Shared} {p : Pool k}
      → Reach k n tasks s p
      → (begun : List Task) × (begun ++ ahead p ≡ tasks)
  taken started = ([], refl)
  taken (step {p} r (schedules e)) =
      let (b, h) = taken r in (b, ap (λ x. b ++ x) (ahead-schedules p e) ∙ h)
  taken (step {p} r (closes e o)) =
      let (b, h) = taken r in (b, ap (λ x. b ++ x) (ahead-closes p (length p.workers)) ∙ h)
  taken (step {p} r (takes i {t} {rest} e q)) =
      let (b, h) = taken r in
      (
        b ++ t ∷ [],
        append-step b t (pending rest ++ p.backlog) ∙ ap (λ x. b ++ x) (sym (ahead-queue p q)) ∙ h,
      )
  taken (step {p} r (stops i e q)) =
      let (b, h) = taken r in (b, ap (λ x. b ++ x) (sym (ahead-queue p q)) ∙ h)
  taken (step r (works i e m)) = taken r
  taken (step r (returns i e m)) = taken r

  -- Tasks begin in the order in which they are scheduled: whatever the threads do, the tasks that
  -- are running or have returned are, as often as they occur, a first part of the scheduled ones,
  -- and those that were not begun are the rest, in order.
  pub begun_in_order :
      {n : ℕ} {tasks : List Task} {s : Shared} {p : Pool k}
      → Reach k n tasks s p
      → (begun : List Task) × (begun ++ ahead p ≡ tasks)
        × ((w : Task → ℕ) → total w begun ≡ total (carried w) p.workers + total w p.returned)
  begun_in_order {p = p} r =
      let (b, h) = taken r in
      (
        b,
        h,
        λ w. omega (
          arith,
          (Reach-Inv k r).kept w,
          ap (total w) h,
          total-append w b (ahead p),
          total-append w (pending p.queue) p.backlog,
          total-pending w p.queue,
        ),
      )
    where
      total-pending :
          (w : Task → ℕ) (q : List (Option Task)) → total w (pending q) ≡ total (queued w) q
      total-pending w [] = refl
      total-pending w (none ∷ q) = omega (arith, total-pending w q)
      total-pending w (some t ∷ q) = omega (arith, total-pending w q)
