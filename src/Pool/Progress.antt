-- ===== src/Pool/Progress.antt =====
-- No deadlock, and no run without end.
use code_contests.Prelude.{
  ℕ, zero, suc, ◌+◌, ◌*◌, ◌≤◌, ◌<◌, true, ◌≡◌, refl, ◌⊎◌, inl, inr, Option, none, some, List, [],
  ◌∷◌, length, get_elem?, set, replicate, All, total, total-set, total-append, length-set,
  length-replicate, if◌then◌else◌, arith, Bool-cases, ap,
}
use code_contests.Pool.{
  Tasks, Worker, waiting, running, exited, Pool, start_workers, Step, schedules, closes, takes,
  stops, works, returns, Reach, Joined,
}
use code_contests.Pool.Weights.{signal, gone, total-replicate_one}
use code_contests.Pool.Invariant.{Reach-Inv}

signal-le {ℓ} : {T : Type ℓ} (q : List (Option T)) → total signal q ≤ length q
signal-le [] = omega arith
signal-le (none ∷ q) = omega (arith, signal-le q)
signal-le (some t ∷ q) = omega (arith, signal-le q)

List-cases {ℓ} : {A : Type ℓ} (xs : List A) → (xs ≡ []) ⊎ ((x : A) × (ys : List A) × (xs ≡ x ∷ ys))
List-cases [] = inl refl
List-cases (x ∷ xs) = inr (x, xs, refl)

module _ {T L : Type 0} where
  -- Some thread is in a task, or else some thread waits, or all are done.
  Workers-cases :
      (ws : List (Worker T L))
      → ((i : ℕ) × (t : T) × (l : L) × (get_elem? ws i ≡ some (running t l)))
        ⊎ ((i : ℕ) × (get_elem? ws i ≡ some waiting))
        ⊎ All (λ w. w ≡ exited) ws
  Workers-cases [] = inr (inr tt)
  Workers-cases (running t l ∷ ws) = inl (0, t, l, refl)
  Workers-cases (waiting ∷ ws) = inr (inl (0, refl))
  Workers-cases (exited ∷ ws) = elim (Workers-cases ws) [
    | inl (i, t, l, e) ↦ inl (suc i, t, l, e)
    | inr (inl (i, e)) ↦ inr (inl (suc i, e))
    | inr (inr h) ↦ inr (inr (refl, h))
  ]

  gone-le : (ws : List (Worker T L)) → total gone ws ≤ length ws
  gone-le [] = omega arith
  gone-le (waiting ∷ ws) = omega (arith, gone-le ws)
  gone-le (running t l ∷ ws) = omega (arith, gone-le ws)
  gone-le (exited ∷ ws) = omega (arith, gone-le ws)

  waiting-lt :
      (ws : List (Worker T L)) (i : ℕ) → get_elem? ws i ≡ some waiting → total gone ws < length ws
  waiting-lt [] i e = absurd (cc)
  waiting-lt (w ∷ ws) zero e = ground (arith, gone-le ws)
  waiting-lt (waiting ∷ ws) (suc i) e = omega (arith, waiting-lt ws i e)
  waiting-lt (running t l ∷ ws) (suc i) e = omega (arith, waiting-lt ws i e)
  waiting-lt (exited ∷ ws) (suc i) e = omega (arith, waiting-lt ws i e)

module _ (k : Tasks) where
  open k use {Task, Local, Shared, begin, Move}

  -- A task that has not returned can take a step, with these shared variables.
  abbrev pub LiveAt : Shared → Type 0
  LiveAt s = (t : Task) (l : Local) → (s' : Shared) × (o : Option Local) × Move s t l s' o

  -- One can with any.
  abbrev pub Live : Type 0
  Live = (s : Shared) → LiveAt s

  works-on :
      {p : Pool k} (i : ℕ) {t : Task} {l : Local} {s : Shared} (o : Option Local)
      → get_elem? p.workers i ≡ some (running t l)
      → Move p.shared t l s o
      → (q : Pool k) × Step k p q
  works-on i none e m = (_, returns i e m)
  works-on i (some l') e m = (_, works i e m)

  takes-on :
      {p : Pool k} (i : ℕ) (q : List (Option Task))
      → get_elem? p.workers i ≡ some waiting
      → p.queue ≡ q
      → 0 < length q
      → (p' : Pool k) × Step k p p'
  takes-on i [] e h pos = absurd (omega arith)
  takes-on i (none ∷ rest) e h pos = (_, stops i e h)
  takes-on i (some t ∷ rest) e h pos = (_, takes i e h)

  module _ {n : ℕ} {tasks : List Task} {s : Shared} {p : Pool k} where
    signalled :
        Reach k n tasks s p
        → p.closed ≡ true
        → (i : ℕ) → get_elem? p.workers i ≡ some waiting
        → 0 < length p.queue
    signalled r shut i e =
        let inv = Reach-Inv k r in
        ground (arith, inv.signals, inv.size, waiting-lt p.workers i e, signal-le p.queue)

    closed-on :
        LiveAt p.shared
        → Reach k n tasks s p
        → p.closed ≡ true
        → Joined k p ⊎ ((q : Pool k) × Step k p q)
    closed-on live r shut = elim (Workers-cases p.workers) [
      | inl (i, t, l, e) ↦ let (s', o, m) = live t l in inr (works-on i o e m)
      | inr (inl (i, e)) ↦ inr (takes-on i p.queue e refl (signalled r shut i e))
      | inr (inr h) ↦ inl (record { shut = shut; all_exited = h })
    ]

    -- No deadlock, if the tasks can go on with the shared variables as they are.
    pub progress_at :
        LiveAt p.shared → Reach k n tasks s p → Joined k p ⊎ ((q : Pool k) × Step k p q)
    progress_at live r = elim (List-cases p.backlog) [
      | inr (t, rest, e) ↦ inr (_, schedules e)
      | inl e ↦ elim (Bool-cases p.closed) [
        | inl shut ↦ closed-on live r shut
        | inr o ↦ inr (_, closes e o)
      ]
    ]

    -- No deadlock: as long as the destructor has not returned, the owner or a thread can take a
    -- step, if every task that has not returned can.
    pub progress : Live → Reach k n tasks s p → Joined k p ⊎ ((q : Pool k) × Step k p q)
    progress live r = progress_at (live p.shared) r

  -- What every move keeps true of the shared variables is true wherever the pool comes to.
  pub Reach-kept :
      (I : Shared → Type 0)
      → ((s s' : Shared) (t : Task) (l : Local) (o : Option Local) → Move s t l s' o → I s → I s')
      → {n : ℕ} {tasks : List Task} {s : Shared} {p : Pool k} → Reach k n tasks s p
      → I s
      → I p.shared
  Reach-kept I kept Reach.started h = h
  Reach-kept I kept (Reach.step r (schedules e)) h = Reach-kept I kept r h
  Reach-kept I kept (Reach.step r (closes e o)) h = Reach-kept I kept r h
  Reach-kept I kept (Reach.step r (takes i e q)) h = Reach-kept I kept r h
  Reach-kept I kept (Reach.step r (stops i e q)) h = Reach-kept I kept r h
  Reach-kept I kept (Reach.step r (works i e m)) h = kept _ _ _ _ _ m (Reach-kept I kept r h)
  Reach-kept I kept (Reach.step r (returns i e m)) h = kept _ _ _ _ _ m (Reach-kept I kept r h)

  -- A run of `m` steps.
  pub data Run : Pool k → ℕ → Pool k → Type 0 where
    stay : {p : Pool k} → Run p 0 p
    go : {m : ℕ} {p q r : Pool k} → Step k p q → Run q m r → Run p (suc m) r

  pub Reach-Run :
      {n m : ℕ} {tasks : List Task} {s : Shared} {p q : Pool k}
      → Reach k n tasks s p
      → Run p m q
      → Reach k n tasks s q
  Reach-Run r stay = r
  Reach-Run r (go st run) = Reach-Run (Reach.step r st) run

  -- `cost l` bounds the steps of a task that stands at `l`.
  module _ (cost : Local → ℕ)
      (falls : (s s' : Shared) (t : Task) (l l' : Local)
        → Move s t l s' (some l')
        → cost l' < cost l) where
    abbrev pub to_do : Task → ℕ
    to_do t = cost (begin t) + 4

    abbrev in_queue : Option Task → ℕ
    in_queue none = 1
    in_queue (some t) = cost (begin t) + 3

    abbrev at_work : Worker Task Local → ℕ
    at_work waiting = 1
    at_work (running t l) = cost l + 2
    at_work exited = 0

    -- A bound on the steps that are left.
    abbrev pub measure : Pool k → ℕ
    measure p =
        total to_do p.backlog
        + (if p.closed then 0 else length p.workers + 1)
        + total in_queue p.queue
        + total at_work p.workers

    pub measure-start_workers :
        (n : ℕ) (tasks : List Task) (s : Shared)
        → measure (start_workers k n tasks s) ≡ total to_do tasks + 2 * n + 1
    measure-start_workers n tasks s =
        let w : Worker Task Local = waiting in
        omega (arith, length-replicate n w, total-replicate_one at_work n w refl)

    same_room :
        (p : Pool k) (i : ℕ) (w : Worker Task Local)
        → (if p.closed then 0 else length (set p.workers i w) + 1)
          ≡ (if p.closed then 0 else length p.workers + 1)
    same_room p i w = ap (λ m. if p.closed then 0 else m + 1) (length-set p.workers i w)

    Step-measure : {p q : Pool k} → Step k p q → measure q < measure p
    Step-measure {p} (schedules {t} {rest} e) =
        omega (arith, ap (total to_do) e, total-append in_queue p.queue (some t ∷ []))
    Step-measure {p} (closes e o) =
        let m = length p.workers in
        rw o (
          omega (
            arith,
            total-append in_queue p.queue (replicate m none),
            total-replicate_one in_queue m none refl,
          ))
    Step-measure {p} (takes i {t} {rest} e q) = omega (
      arith,
      ap (total in_queue) q,
      total-set at_work p.workers i waiting (running t (begin t)) e,
      same_room p i (running t (begin t)),
    )
    Step-measure {p} (stops i e q) = omega (
      arith,
      ap (total in_queue) q,
      total-set at_work p.workers i waiting exited e,
      same_room p i exited,
    )
    Step-measure {p} (works i {t} {l} {l'} {s} e m) = omega (
      arith,
      falls p.shared s t l l' m,
      total-set at_work p.workers i (running t l) (running t l') e,
      same_room p i (running t l'),
    )
    Step-measure {p} (returns i {t} {l} {s} e m) =
        omega (arith, total-set at_work p.workers i (running t l) waiting e, same_room p i waiting)

    -- Every run is finite: one from `p` has at most `measure p` steps.
    pub Run-measure : {p q : Pool k} {m : ℕ} → Run p m q → m + measure q ≤ measure p
    Run-measure stay = omega arith
    Run-measure (go st r) = omega (arith, Run-measure r, Step-measure st)

    Run-on :
        {n : ℕ} {tasks : List Task} {s : Shared}
        → Live
        → (fuel : ℕ) (p : Pool k) → measure p < fuel
        → Reach k n tasks s p
        → (q : Pool k) × (m : ℕ) × Run p m q × Joined k q
    Run-on live zero p h r = absurd (omega arith)
    Run-on live (suc fuel) p h r = elim (progress live r) [
      | inl j ↦ (p, 0, stay, j)
      | inr (q, st) ↦
          let (q', m, run, j) =
            Run-on live fuel q (omega (arith, Step-measure st)) (Reach.step r st) in
          (q', suc m, go st run, j)
    ]

    -- From every state that a pool reaches, its destructor can still return, whatever steps were
    -- taken before; with `Run-measure`, it returns however the threads are scheduled.
    pub can_join :
        {n : ℕ} {tasks : List Task} {s : Shared} {p : Pool k}
        → Live
        → Reach k n tasks s p
        → (q : Pool k) × (m : ℕ) × Run p m q × Joined k q
    can_join {p = p} live r = Run-on live (suc (measure p)) p (omega arith) r
