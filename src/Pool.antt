-- ===== src/Pool.antt =====
-- `ThreadPool` of execution/simple_threadpool.h: a queue of tasks, the threads that take them, and
-- the owner, which schedules its tasks and then destroys the pool. The mutex makes each access to
-- the queue one step; the threads take their steps in any order. What a task does is a parameter.
pub mod Weights
pub mod Invariant
pub mod Completion
pub mod Progress
pub mod Order
pub mod Serial
mod Examples
use code_contests.Prelude.{
  ℕ, Bool, true, false, ◌≡◌, Option, none, some, List, [], ◌∷◌, ◌++◌, length, get_elem?, set,
  replicate, All,
}

-- What the tasks are. `Move s t l s' l'` is one step of the task `t`, from the local state `l` and
-- the shared state `s`; with `none` for `l'` it is the task's return.
pub record Tasks : Type 1 where
  pub Task : Type 0
  pub Local : Type 0
  pub Shared : Type 0
  pub begin : Task → Local
  pub Move : Shared → Task → Local → Shared → Option Local → Type 0

-- Where a thread stands in `WorkLoop`: at `Await`, in `func()`, or behind the loop.
pub data Worker (T L : Type 0) : Type 0 where
  waiting : Worker T L
  running : T → L → Worker T L
  exited : Worker T L

module _ (k : Tasks) where
  open k use {Task, Local, Shared, begin, Move}

  -- `backlog` is what the owner has not scheduled yet, and `closed` says that the destructor has
  -- pushed the shutdown signals, which are `none` in the queue. `returned` only records which tasks
  -- have returned, the last one first.
  pub record Pool : Type 0 where
    pub backlog : List Task
    pub closed : Bool
    pub queue : List (Option Task)
    pub workers : List (Worker Task Local)
    pub shared : Shared
    pub returned : List Task

  -- `StartWorkers` on a new pool.
  abbrev pub start_workers : ℕ → List Task → Shared → Pool
  start_workers num_threads tasks s = record {
    backlog = tasks;
    closed = false;
    queue = [];
    workers = replicate num_threads waiting;
    shared = s;
    returned = [];
  }

  pub data Step (p : Pool) : Pool → Type 0 where
    -- `Schedule`
    schedules :
        {t : Task} {rest : List Task}
        → p.backlog ≡ t ∷ rest
        → Step p (record p { backlog = rest; queue = p.queue ++ some t ∷ [] })
    -- the locked part of the destructor
    closes :
        p.backlog ≡ []
        → p.closed ≡ false
        → Step p (record p { closed = true; queue = p.queue ++ replicate (length p.workers) none })
    -- `WorkLoop`, the locked part: a task
    takes :
        (i : ℕ) {t : Task} {rest : List (Option Task)}
        → get_elem? p.workers i ≡ some waiting
        → p.queue ≡ some t ∷ rest
        → Step p (record p { queue = rest; workers = set p.workers i (running t (begin t)) })
    -- `WorkLoop`, the locked part: a shutdown signal, and `break`
    stops :
        (i : ℕ) {rest : List (Option Task)}
        → get_elem? p.workers i ≡ some waiting
        → p.queue ≡ none ∷ rest
        → Step p (record p { queue = rest; workers = set p.workers i exited })
    -- `func()`, a step in it
    works :
        (i : ℕ) {t : Task} {l l' : Local} {s : Shared}
        → get_elem? p.workers i ≡ some (running t l)
        → Move p.shared t l s (some l')
        → Step p (record p { workers = set p.workers i (running t l'); shared = s })
    -- `func()` returns
    returns :
        (i : ℕ) {t : Task} {l : Local} {s : Shared}
        → get_elem? p.workers i ≡ some (running t l)
        → Move p.shared t l s none
        → Step p
            (record p { workers = set p.workers i waiting; shared = s; returned = t ∷ p.returned })

  -- The states of a pool with `n` threads for `tasks`, from the shared state `s`.
  pub data Reach (n : ℕ) (tasks : List Task) (s : Shared) : Pool → Type 0 where
    started : Reach n tasks s (start_workers n tasks s)
    step : {p q : Pool} → Reach n tasks s p → Step p q → Reach n tasks s q

  -- All threads are joined: the destructor returns.
  pub record Joined (p : Pool) : Type 0 where
    pub shut : p.closed ≡ true
    pub all_exited : All (λ w. w ≡ exited) p.workers
