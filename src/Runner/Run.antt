-- ===== src/Runner/Run.antt =====
-- Every state of a test run keeps the invariant.
use code_contests.Prelude.{
  ℕ, zero, suc, ◌+◌, ◌≤◌, ◌<◌, true, false, ◌≡◌, refl, sym, inl, inr, Option, some, List, ◌∷◌,
  length, get_elem?, set, total, All, All-set, All-get_elem?, All-replicate, All-mono, le-total,
  length-replicate, if◌then◌else◌, ltb, leb, ◌&&◌, arith, subst, replicate,
}
use code_contests.Status.{StatusOr, ok, err, is_cancelled}
use code_contests.Results.{ExecutionResult, default_result}
use code_contests.Pool.{
  Worker, waiting, running, exited, Pool, start_workers, Step, schedules, closes, takes, stops,
  works, returns, Reach, started, step,
}
use code_contests.Pool.Weights.{carried}
use code_contests.Pool.Invariant.{Inv, Reach-Inv}
use code_contests.Runner.Task.{Job, Shared, Local, publish, tasks}
use code_contests.Runner.Publishing.{is_at, Fine, skip-Fine, error-Fine, result-Fine}
use code_contests.Runner.Tracking.{
  Sound, Tracked, Handled, Leaves, Move-Tracked, Move-Leaves, Tracked-Later, publish-Later,
  publish-Handled, own-Handled,
}
use code_contests.Runner.{indices, fresh}

-- The weight that counts what is out of range.
abbrev beyond : ℕ → ℕ → ℕ
beyond n k = if ltb k n then 0 else 1

total-beyond : (n i m : ℕ) → i + m ≤ n → total (beyond n) (indices i m) ≡ 0
unfolding indices
total-beyond n i zero h = refl
total-beyond n i (suc m) h = ground (arith, total-beyond n (suc i) m)

pub count-indices :
    (t i m : ℕ) → total (is_at t) (indices i m) ≡ (if leb i t && ltb t (i + m) then 1 else 0)
unfolding indices
count-indices t i zero = ground arith
count-indices t i (suc m) = ground (arith, count-indices t (suc i) m)

module _ (j : Job) where
  open j use {inputs, Outcome}

  abbrev pub input_count : ℕ
  input_count = length inputs

  abbrev TrackedWorker : Shared → Worker ℕ Local → Type 0
  TrackedWorker s waiting = Unit
  TrackedWorker s (running t l) = Tracked j s t l
  TrackedWorker s exited = Unit

  pub record RunInv (p : Pool (tasks j)) : Type 0 where
    pub fine : Fine j input_count p.returned p.shared
    pub tracked : All (TrackedWorker p.shared) p.workers
    pub handled : All (Handled j p.shared) p.returned

  abbrev pub all_tasks : List ℕ
  all_tasks = indices 0 input_count

  RunInv-start : (n : ℕ) → RunInv (start_workers (tasks j) n all_tasks (fresh input_count))
  RunInv-start n = record {
    fine = record {
      len = length-replicate input_count default_result;
      entries = λ i x e. inl (
          All-get_elem? (λ y. y ≡ default_result) (replicate input_count default_result) i
            (All-replicate (λ y. y ≡ default_result) input_count default_result refl) e);
      stopped = λ h. absurd (cc);
      failed = λ e h. absurd (cc);
    };
    tracked = All-replicate (TrackedWorker (fresh input_count)) n waiting tt;
    handled = tt;
  }

  module _ {n : ℕ} {p : Pool (tasks j)} (inv : Inv (tasks j) n all_tasks p) where
    running-lt :
        (i : ℕ) {t : ℕ} {l : Local} → get_elem? p.workers i ≡ some (running t l) → t < input_count
    running-lt i {t} {l} e =
        let w = beyond input_count in
        ground (
          arith,
          inv.kept w,
          total-beyond input_count 0 input_count,
          le-total (carried w) p.workers i e,
        )

    running_once :
        (i : ℕ) {t : ℕ} {l : Local}
        → get_elem? p.workers i ≡ some (running t l)
        → total (is_at t) p.returned ≡ 0
    running_once i {t} {l} e =
        let w = is_at t in
        ground
          (arith, inv.kept w, count-indices t 0 input_count, le-total (carried w) p.workers i e)

    module _ (r : RunInv p) where
      open r use {fine, tracked, handled}

      -- A thread changes its place, and nothing else changes.
      move-RunInv :
          (i : ℕ) (w : Worker ℕ Local)
          → TrackedWorker p.shared w
          → (queue : List (Option ℕ))
          → RunInv (record p { queue = queue; workers = set p.workers i w })
      move-RunInv i w h queue = record {
        fine = fine;
        tracked = All-set (TrackedWorker p.shared) p.workers i w tracked h;
        handled = handled;
      }

      Worker-Later :
          (s : Shared)
          → (p.shared.should_stop ≡ true → s.should_stop ≡ true)
          → (w : Worker ℕ Local) → TrackedWorker p.shared w
          → TrackedWorker s w
      Worker-Later s h waiting t = tt
      Worker-Later s h (running u l) t = Tracked-Later j p.shared s u l h t
      Worker-Later s h exited t = tt

      works-RunInv :
          (i : ℕ) {t : ℕ} {l : Local} (l' : Local) {s : Shared}
          → get_elem? p.workers i ≡ some (running t l)
          → (s ≡ p.shared) × Tracked j s t l'
          → RunInv (record p { workers = set p.workers i (running t l'); shared = s })
      works-RunInv i {t} {l} l' {s} e (same, h) = record {
        fine = rw same fine;
        tracked =
            All-set (TrackedWorker s) p.workers i (running t l')
              (All-mono (TrackedWorker p.shared) (TrackedWorker s) (Worker-Later s (λ b. rw same b))
                p.workers tracked)
              h;
        handled = rw same handled;
      }

      Fine-returns :
          (i : ℕ) {t : ℕ} {l : Local} (q : StatusOr ExecutionResult)
          → get_elem? p.workers i ≡ some (running t l)
          → Sound j p.shared t q
          → is_cancelled q ≡ false
          → Fine j input_count (t ∷ p.returned) (publish j t q p.shared)
      Fine-returns i {t} (ok x) e o c = result-Fine j t fine x (running-lt i e) (running_once i e) o
      Fine-returns i {t} (err x) e (inl o) c = error-Fine j t fine x (running-lt i e) o
      Fine-returns i {t} (err x) e (inr (d, b)) c = absurd (cc)

      in_results :
          (i : ℕ) {t : ℕ} {l : Local}
          → get_elem? p.workers i ≡ some (running t l)
          → t < length p.shared.test_results
      in_results i e = omega (arith, fine.len, running-lt i e)

      returns-RunInv :
          (i : ℕ) {t : ℕ} {l : Local} {s : Shared} (q : StatusOr ExecutionResult)
          → get_elem? p.workers i ≡ some (running t l)
          → Sound j p.shared t q
          → Leaves j p.shared t q s
          → RunInv (record p {
            workers = set p.workers i waiting;
            shared = s;
            returned = t ∷ p.returned;
          })
      returns-RunInv i {t} {l} {s} q e o (inl (c, same)) = record {
        fine = rw same (skip-Fine j t fine);
        tracked =
            All-set (TrackedWorker s) p.workers i waiting
              (subst (λ x. All (TrackedWorker x) p.workers) (sym same) tracked) tt;
        handled = (
          own-Handled j p.shared s t q (in_results i e) o (inl (c, same)),
          subst (λ x. All (Handled j x) p.returned) (sym same) handled,
        );
      }
      returns-RunInv i {t} {l} {s} q e o (inr (c, same)) = record {
        fine = rw same (Fine-returns i q e o c);
        tracked =
            All-set (TrackedWorker s) p.workers i waiting
              (All-mono (TrackedWorker p.shared) (TrackedWorker s)
                (Worker-Later s (λ b. rw same (publish-Later j p.shared t q b))) p.workers tracked)
              tt;
        handled = (
          own-Handled j p.shared s t q (in_results i e) o (inr (c, same)),
          subst (λ x. All (Handled j x) p.returned) (sym same)
              (All-mono (Handled j p.shared) (Handled j (publish j t q p.shared))
                (λ u. publish-Handled j p.shared t u q o) p.returned handled),
        );
      }

  Step-RunInv :
      {n : ℕ} {p q : Pool (tasks j)}
      → Inv (tasks j) n all_tasks p
      → RunInv p
      → Step (tasks j) p q
      → RunInv q
  Step-RunInv inv r (schedules e) = record {
    fine = r.fine;
    tracked = r.tracked;
    handled = r.handled;
  }
  Step-RunInv inv r (closes e o) = record {
    fine = r.fine;
    tracked = r.tracked;
    handled = r.handled;
  }
  Step-RunInv inv r (takes i {t} {rest} e q) = move-RunInv inv r i _ tt rest
  Step-RunInv inv r (stops i {rest} e q) = move-RunInv inv r i exited tt rest
  Step-RunInv {p = p} inv r (works i {t} {l} {l'} e m) =
      works-RunInv inv r i l' e
        (Move-Tracked j m (All-get_elem? (TrackedWorker p.shared) p.workers i r.tracked e))
  Step-RunInv {p = p} inv r (returns i {t} {l} e m) =
      let (q, at, lv) = Move-Leaves j m in
      returns-RunInv inv r i q e
        (subst (Tracked j p.shared t) at
          (All-get_elem? (TrackedWorker p.shared) p.workers i r.tracked e))
        lv

  pub Reach-RunInv :
      {n : ℕ} {p : Pool (tasks j)} → Reach (tasks j) n all_tasks (fresh input_count) p → RunInv p
  Reach-RunInv {n} started = RunInv-start n
  Reach-RunInv (step r st) = Step-RunInv (Reach-Inv (tasks j) r) (Reach-RunInv r) st
