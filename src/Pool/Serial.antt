-- ===== src/Pool/Serial.antt =====
-- A pool with one thread.
use code_contests.Prelude.{
  ℕ, zero, suc, ◌≡◌, ◌↔◌, refl, sym, ap, ◌∙◌, Option, none, some, List, [], ◌∷◌, ◌++◌, get_elem?,
  set, replicate, true, false, length, All, arith, subst,
}
use code_contests.Pool.{
  Tasks, Worker, waiting, running, exited, Pool, schedules, closes, takes, stops, works, returns,
  Reach, started, step, Joined,
}
use mathlib.Core.List.{append-nil}
use code_contests.Pool.Invariant.{Reach-Inv}
use code_contests.Pool.Completion.{all_returned}
use code_contests.Pool.Order.{ahead, ahead-schedules, ahead-closes, ahead-queue, append-step}

module _ (k : Tasks) where
  open k use {Task, Local, Shared, begin, Move}

  -- The states that a task comes to, from `s` and `l` on, while no other task takes a step.
  pub data Within (t : Task) (s : Shared) (l : Local) : Shared → Local → Type 0 where
    here : Within t s l s l
    move :
        {s₁ s₂ : Shared} {l₁ l₂ : Local}
        → Within t s l s₁ l₁
        → Move s₁ t l₁ s₂ (some l₂)
        → Within t s l s₂ l₂

  -- A whole run of a task, from its begin to its return.
  abbrev pub Executes : Shared → Task → Shared → Type 0
  Executes s t s' = (s₁ : Shared) × (l : Local) × Within t s (begin t) s₁ l × Move s₁ t l s' none

  -- The tasks run one after another.
  abbrev pub Serial : Shared → List Task → Shared → Type 0
  Serial s [] s' = s' ≡ s
  Serial s (t ∷ ts) s' = (s₁ : Shared) × Executes s t s₁ × Serial s₁ ts s'

  Serial-snoc :
      (s : Shared) (ts : List Task) (t : Task) (s₁ s₂ : Shared)
      → Serial s ts s₁
      → Executes s₁ t s₂
      → Serial s (ts ++ t ∷ []) s₂
  Serial-snoc s [] t s₁ s₂ h x = (s₂, subst (λ u. Executes u t s₂) h x, refl)
  Serial-snoc s (u ∷ ts) t s₁ s₂ (s', y, h) x = (s', y, Serial-snoc s' ts t s₁ s₂ h x)

  -- A list with one element has it at its only place.
  only {ℓ} :
      {A : Type ℓ} (ws : List A) (w : A) (i : ℕ) {v : A}
      → ws ≡ w ∷ []
      → get_elem? ws i ≡ some v
      → (w ≡ v) × ((u : A) → set ws i u ≡ u ∷ [])
  only ws w zero e h = (cc (ap (λ x. get_elem? x 0) e), λ u. ap (λ x. set x 0 u) e)
  only ws w (suc i) e h = absurd (cc (ap (λ x. get_elem? x (suc i)) e))

  module _ (tasks : List Task) (s : Shared) where
    -- What was run before, by where the only thread stands.
    abbrev At : Pool k → Worker Task Local → Type 0
    At p waiting = (ts : List Task) × Serial s ts p.shared × (ts ++ ahead k p ≡ tasks)
    At p exited = (ts : List Task) × Serial s ts p.shared × (ts ++ ahead k p ≡ tasks)
    At p (running t l) =
        (ts : List Task) × (s₁ : Shared) × Serial s ts s₁
        × Within t s₁ (begin t) p.shared l
        × (ts ++ t ∷ ahead k p ≡ tasks)

    AtWork : Pool k → Type 0
    AtWork p = (w : Worker Task Local) × (p.workers ≡ w ∷ []) × At p w

    -- What the owner does changes nothing in that.
    At-owner :
        (p q : Pool k) (w : Worker Task Local)
        → ahead k q ≡ ahead k p
        → q.shared ≡ p.shared
        → At p w
        → At q w
    At-owner p q waiting e f (ts, c, h) =
        (ts, subst (Serial s ts) (sym f) c, ap (λ x. ts ++ x) e ∙ h)
    At-owner p q exited e f (ts, c, h) =
        (ts, subst (Serial s ts) (sym f) c, ap (λ x. ts ++ x) e ∙ h)
    At-owner p q (running t l) e f (ts, s₁, c, w, h) =
        (ts, s₁, c, subst (λ x. Within t s₁ (begin t) x l) (sym f) w, ap (λ x. ts ++ t ∷ x) e ∙ h)

    At-takes :
        (p : Pool k) {t : Task} {rest : List (Option Task)} (ws : List (Worker Task Local))
        → p.queue ≡ some t ∷ rest
        → At p waiting
        → At (record p { queue = rest; workers = ws }) (running t (begin t))
    At-takes p ws q (ts, c, h) =
        (ts, p.shared, c, here, ap (λ x. ts ++ x) (sym (ahead-queue k p q)) ∙ h)

    At-stops :
        (p : Pool k) {rest : List (Option Task)} (ws : List (Worker Task Local))
        → p.queue ≡ none ∷ rest
        → At p waiting
        → At (record p { queue = rest; workers = ws }) exited
    At-stops p ws q (ts, c, h) = (ts, c, ap (λ x. ts ++ x) (sym (ahead-queue k p q)) ∙ h)

    At-works :
        (p : Pool k) {t : Task} {l l' : Local} {u : Shared} (ws : List (Worker Task Local))
        → Move p.shared t l u (some l')
        → At p (running t l)
        → At (record p { workers = ws; shared = u }) (running t l')
    At-works p ws m (ts, s₁, c, w, h) = (ts, s₁, c, move w m, h)

    At-returns :
        (p : Pool k) {t : Task} {l : Local} {u : Shared} (ws : List (Worker Task Local))
        → Move p.shared t l u none
        → At p (running t l)
        → At (record p { workers = ws; shared = u; returned = t ∷ p.returned }) waiting
    At-returns p {t} {l} {u} ws m (ts, s₁, c, w, h) = (
      ts ++ t ∷ [],
      Serial-snoc s ts t s₁ u c (p.shared, l, w, m),
      append-step ts t (ahead k p) ∙ h,
    )

    Reach-AtWork : {p : Pool k} → Reach k 1 tasks s p → AtWork p
    unfolding AtWork
    Reach-AtWork started = (waiting, refl, ([], refl, refl))
    Reach-AtWork (step {p} r (schedules {t} {rest} e)) =
        let (w, f, h) = Reach-AtWork r in
        (
          w,
          f,
          At-owner p (record p { backlog = rest; queue = p.queue ++ some t ∷ [] }) w
              (ahead-schedules k p e) refl h,
        )
    Reach-AtWork (step {p} r (closes e o)) =
        let (w, f, h) = Reach-AtWork r in
        (
          w,
          f,
          At-owner p
              (record p { closed = true; queue = p.queue ++ replicate (length p.workers) none }) w
              (ahead-closes k p (length p.workers)) refl h,
        )
    Reach-AtWork (step {p} r (takes i {t} e q)) =
        let (w, f, h) = Reach-AtWork r in
        let (same, place) = only p.workers w i f e in
        (
          running t (begin t),
          place _,
          At-takes p (set p.workers i (running t (begin t))) q (subst (At p) same h),
        )
    Reach-AtWork (step {p} r (stops i e q)) =
        let (w, f, h) = Reach-AtWork r in
        let (same, place) = only p.workers w i f e in
        (exited, place _, At-stops p (set p.workers i exited) q (subst (At p) same h))
    Reach-AtWork (step {p} r (works i {t} {l' = l'} e m)) =
        let (w, f, h) = Reach-AtWork r in
        let (same, place) = only p.workers w i f e in
        (running t l', place _, At-works p (set p.workers i (running t l')) m (subst (At p) same h))
    Reach-AtWork (step {p} r (returns i e m)) =
        let (w, f, h) = Reach-AtWork r in
        let (same, place) = only p.workers w i f e in
        (waiting, place _, At-returns p (set p.workers i waiting) m (subst (At p) same h))

    At-ended :
        (p : Pool k) (w : Worker Task Local)
        → w ≡ exited
        → ahead k p ≡ []
        → At p w
        → Serial s tasks p.shared
    At-ended p waiting e a h = absurd (cc)
    At-ended p (running t l) e a h = absurd (cc)
    At-ended p exited e a (ts, c, h) =
        subst (λ x. Serial s x p.shared) (sym (append-nil ts) ∙ ap (λ x. ts ++ x) (sym a) ∙ h) c

    -- When the destructor returns, the tasks have run one after another, in their order.
    pub one_thread : {p : Pool k} → Reach k 1 tasks s p → Joined k p → Serial s tasks p.shared
    unfolding AtWork
    one_thread {p} r j =
        let (w, f, h) = Reach-AtWork r in
        let (_, empty) = all_returned k (omega arith) r j in
        At-ended p w ((subst (All (λ w. w ≡ exited)) f j.all_exited).0)
          (ahead-queue k p empty ∙ (Reach-Inv k r).finished j.shut) h

    -- The only thread waits, with these tasks to come, or runs one of them.
    abbrev idle : List Task → Shared → List Task → Pool k
    idle ts u returned = record {
      backlog = ts;
      closed = false;
      queue = [];
      workers = waiting ∷ [];
      shared = u;
      returned = returned;
    }

    abbrev busy : List Task → Shared → List Task → Task → Local → Pool k
    busy ts u returned t l = record (idle ts u returned) { workers = running t l ∷ [] }

    runs_within :
        (ts : List Task) (r : List Task) {t : Task} {u₁ : Shared} {l₁ : Local} {u₂ : Shared}
        {l₂ : Local}
        → Reach k 1 tasks s (busy ts u₁ r t l₁)
        → Within t u₁ l₁ u₂ l₂
        → Reach k 1 tasks s (busy ts u₂ r t l₂)
    runs_within ts r reach here = reach
    runs_within ts r reach (move w m) = step (runs_within ts r reach w) (works 0 refl m)

    runs_all :
        (ts : List Task) (u u' : Shared) (r : List Task)
        → Reach k 1 tasks s (idle ts u r)
        → Serial u ts u'
        → (p : Pool k) × Reach k 1 tasks s p × Joined k p × (p.shared ≡ u')
    runs_all [] u u' r reach h = (
      record (idle [] u r) { closed = true; workers = exited ∷ [] },
      step (step reach (closes refl refl)) (stops 0 refl refl),
      record { shut = refl; all_exited = (refl, tt) },
      sym h,
    )
    runs_all (t ∷ ts) u u' r reach (u₁, (u₂, l, w, m), h) =
        let begun : Reach k 1 tasks s (busy ts u r t (begin t)) =
          step (step reach (schedules refl)) (takes 0 refl refl) in
        let returned : Reach k 1 tasks s (idle ts u₁ (t ∷ r)) =
          step (runs_within ts r begun w) (returns 0 refl m) in
        runs_all ts u₁ u' (t ∷ r) returned h

    -- A pool with one thread is a loop: its destructor can return with a shared state exactly if the
    -- tasks, run one after another in the order in which they were scheduled, each from its begin to
    -- its return in the state that the one before it left, lead to this state.
    pub one_thread_iff :
        (s' : Shared)
        → ((p : Pool k) × Reach k 1 tasks s p × Joined k p × (p.shared ≡ s')) ↔ Serial s tasks s'
    one_thread_iff s' = (
      λ (p, reach, joined, e). subst (Serial s tasks) e (one_thread reach joined),
      λ h. runs_all tasks s s' [] started h,
    )
