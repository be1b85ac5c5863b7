-- ===== src/Pool/Invariant.antt =====
-- What holds in every reachable state of a pool, whatever its tasks do.
use code_contests.Prelude.{
  ℕ, ◌+◌, ◌<◌, true, false, ◌≡◌, refl, inl, inr, Option, none, some, List, [], ◌∷◌, ◌++◌, length,
  get_elem?, set, replicate, total, total-set, total-append, length-set, length-replicate,
  Bool-cases, ap, subst, if◌then◌else◌, arith,
}
use code_contests.Pool.{
  Tasks, waiting, running, exited, Pool, start_workers, Step, schedules, closes, takes, stops,
  works, returns, Reach, started, step,
}
use code_contests.Pool.Weights.{
  signal, queued, gone, carried, TasksFirst, total-replicate_zero, total-replicate_one,
  TasksFirst-schedule, TasksFirst-close, TasksFirst-tail, total-no_tasks,
}

module _ (k : Tasks) where
  open k use {Task, Local, Shared}

  pub record Inv (n : ℕ) (tasks : List Task) (p : Pool k) : Type 0 where
    pub size : length p.workers ≡ n
    -- Every signal is in the queue or has been taken by a thread that exited.
    pub signals : total signal p.queue + total gone p.workers ≡ (if p.closed then n else 0)
    pub ordered : TasksFirst p.queue
    pub finished : p.closed ≡ true → p.backlog ≡ []
    -- A thread exits only behind the last task.
    pub late : (w : Task → ℕ) → 0 < total gone p.workers → total (queued w) p.queue ≡ 0
    -- Every task is in the backlog, in the queue, in a thread, or has returned: exactly once.
    pub kept :
        (w : Task → ℕ)
        → total w p.backlog
            + total (queued w) p.queue
            + total (carried w) p.workers
            + total w p.returned
          ≡ total w tasks

  Inv-start : (n : ℕ) (tasks : List Task) (s : Shared) → Inv n tasks (start_workers k n tasks s)
  Inv-start n tasks s = record {
    size = length-replicate n waiting;
    signals = omega (arith, total-replicate_zero gone n waiting refl);
    ordered = tt;
    finished = λ h. cc;
    late = λ w h. refl;
    kept = λ w. omega (arith, total-replicate_zero (carried w) n waiting refl);
  }

  module _ {n : ℕ} {tasks : List Task} {p : Pool k} (inv : Inv n tasks p) where
    open inv use {size, signals, ordered, finished, late, kept}

    while_open : p.closed ≡ false → (total signal p.queue ≡ 0) × (total gone p.workers ≡ 0)
    while_open e = ground (arith, signals)

    still_open : {t : Task} {rest : List Task} → p.backlog ≡ t ∷ rest → p.closed ≡ false
    still_open e = elim (Bool-cases p.closed) [ inl shut ↦ absurd (cc (finished shut)) | inr o ↦ o ]

    schedules-Inv :
        {t : Task} {rest : List Task}
        → p.backlog ≡ t ∷ rest
        → Inv n tasks (record p { backlog = rest; queue = p.queue ++ some t ∷ [] })
    schedules-Inv {t} {rest} e =
        let o = still_open e in
        let (s, g) = while_open o in
        record {
          size = size;
          signals = rw o (omega (arith, g, s, total-append signal p.queue (some t ∷ [])));
          ordered = TasksFirst-schedule p.queue t s;
          finished = λ shut. absurd (cc);
          late = λ w h. absurd (omega arith);
          kept = λ w.
              omega (arith, kept w, ap (total w) e, total-append (queued w) p.queue (some t ∷ []));
        }

    closes-Inv :
        p.backlog ≡ []
        → p.closed ≡ false
        → Inv n tasks
            (record p { closed = true; queue = p.queue ++ replicate (length p.workers) none })
    closes-Inv e o =
        let (s, g) = while_open o in
        let m = length p.workers in
        record {
          size = size;
          signals = omega (
            arith,
            g,
            s,
            size,
            total-append signal p.queue (replicate m none),
            total-replicate_one (signal {T = Task}) m none refl,
          );
          ordered = TasksFirst-close p.queue m s;
          finished = λ shut. e;
          late = λ w h. absurd (omega arith);
          kept = λ w. omega (
            arith,
            kept w,
            total-append (queued w) p.queue (replicate m none),
            total-replicate_zero (queued w) m none refl,
          );
        }

    takes-Inv :
        (i : ℕ) {t : Task} {rest : List (Option Task)} (l : Local)
        → get_elem? p.workers i ≡ some waiting
        → p.queue ≡ some t ∷ rest
        → Inv n tasks (record p { queue = rest; workers = set p.workers i (running t l) })
    takes-Inv i {t} {rest} l e q = record {
      size = omega (arith, size, length-set p.workers i (running t l));
      signals =
          omega (
            arith,
            signals,
            ap (total signal) q,
            total-set gone p.workers i waiting (running t l) e,
          );
      ordered = TasksFirst-tail (some t) rest (subst TasksFirst q ordered);
      finished = finished;
      late = λ w h. omega (
        arith,
        ap (total (queued w)) q,
        late w (omega (arith, total-set gone p.workers i waiting (running t l) e)),
      );
      kept = λ w. omega (
        arith,
        kept w,
        ap (total (queued w)) q,
        total-set (carried w) p.workers i waiting (running t l) e,
      );
    }

    stops-Inv :
        (i : ℕ) {rest : List (Option Task)}
        → get_elem? p.workers i ≡ some waiting
        → p.queue ≡ none ∷ rest
        → Inv n tasks (record p { queue = rest; workers = set p.workers i exited })
    stops-Inv i {rest} e q = record {
      size = omega (arith, size, length-set p.workers i exited);
      signals =
          omega (arith, signals, ap (total signal) q, total-set gone p.workers i waiting exited e);
      ordered = TasksFirst-tail none rest (subst TasksFirst q ordered);
      finished = finished;
      late = λ w h. total-no_tasks w rest (subst TasksFirst q ordered);
      kept = λ w. omega (
        arith,
        kept w,
        ap (total (queued w)) q,
        total-set (carried w) p.workers i waiting exited e,
      );
    }

    works-Inv :
        (i : ℕ) {t : Task} {l : Local} (l' : Local) (s : Shared)
        → get_elem? p.workers i ≡ some (running t l)
        → Inv n tasks (record p { workers = set p.workers i (running t l'); shared = s })
    works-Inv i {t} {l} l' s e =
        let exits = total-set gone p.workers i (running t l) (running t l') e in
        record {
          size = omega (arith, size, length-set p.workers i (running t l'));
          signals = omega (arith, signals, exits);
          ordered = ordered;
          finished = finished;
          late = λ w h. late w (omega (arith, exits));
          kept = λ w.
              omega
                (arith, kept w, total-set (carried w) p.workers i (running t l) (running t l') e);
        }

    returns-Inv :
        (i : ℕ) {t : Task} {l : Local} (s : Shared)
        → get_elem? p.workers i ≡ some (running t l)
        → Inv n tasks
            (record p { workers = set p.workers i waiting; shared = s; returned = t ∷ p.returned })
    returns-Inv i {t} {l} s e =
        let exits = total-set gone p.workers i (running t l) waiting e in
        record {
          size = omega (arith, size, length-set p.workers i waiting);
          signals = omega (arith, signals, exits);
          ordered = ordered;
          finished = finished;
          late = λ w h. late w (omega (arith, exits));
          kept =
              λ w. omega (arith, kept w, total-set (carried w) p.workers i (running t l) waiting e);
        }

  Step-Inv : {n : ℕ} {tasks : List Task} {p q : Pool k} → Step k p q → Inv n tasks p → Inv n tasks q
  Step-Inv (schedules e) inv = schedules-Inv inv e
  Step-Inv (closes e o) inv = closes-Inv inv e o
  Step-Inv (takes i e q) inv = takes-Inv inv i (k.begin _) e q
  Step-Inv (stops i e q) inv = stops-Inv inv i e q
  Step-Inv (works i {t} {l} {l'} {s} e m) inv = works-Inv inv i l' s e
  Step-Inv (returns i {t} {l} {s} e m) inv = returns-Inv inv i s e

  pub Reach-Inv :
      {n : ℕ} {tasks : List Task} {s : Shared} {p : Pool k} → Reach k n tasks s p → Inv n tasks p
  Reach-Inv {n} {tasks} {s} started = Inv-start n tasks s
  Reach-Inv (step r st) = Step-Inv st (Reach-Inv r)
