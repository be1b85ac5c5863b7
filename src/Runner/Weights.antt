-- ===== src/Runner/Weights.antt =====
-- Counting in a test run: the results that failed, and the threads with a result in the making.
use code_contests.Prelude.{
  ℕ, zero, suc, ◌+◌, ◌≤◌, Bool, true, false, ◌≡◌, refl, Option, none, some, List, [], ◌∷◌, length,
  set, total, arith,
}
use code_contests.Status.{StatusOr, ok, err}
use code_contests.Results.{ExecutionResult}
use code_contests.Pool.{Worker, waiting, running, exited}
use code_contests.Runner.Task.{
  Job, Shared, Local, head, called, got, leaves, Move, gives_up, sees_stop, sees_none, runs, breaks,
  retries,
}

-- The weight that counts negative verdicts.
abbrev pub negative : Option Bool → ℕ
negative (some false) = 1
negative _ = 0

abbrev pub failing : ExecutionResult → ℕ
failing x = negative x.passed

pub negative_le : (o : Option Bool) → negative o ≤ 1
negative_le none = omega arith
negative_le (some true) = omega arith
negative_le (some false) = omega arith

-- The weight of a task that may still store a result after it should stop.
abbrev pub value_of : StatusOr ExecutionResult → ℕ
value_of (ok x) = 1
value_of (err e) = 0

abbrev pub in_hand : Local → ℕ
in_hand (head left r) = value_of r
in_hand (called left) = 1
in_hand (got left r) = value_of r
in_hand (leaves r) = value_of r

abbrev pub at_work : Worker ℕ Local → ℕ
at_work waiting = 0
at_work (running t l) = in_hand l
at_work exited = 0

pub value_of_le : (r : StatusOr ExecutionResult) → value_of r ≤ 1
value_of_le (ok x) = omega arith
value_of_le (err e) = omega arith

pub at_work_le : (w : Worker ℕ Local) → at_work w ≤ 1
at_work_le waiting = omega arith
at_work_le exited = omega arith
at_work_le (running t (head left r)) = value_of_le r
at_work_le (running t (called left)) = omega arith
at_work_le (running t (got left r)) = value_of_le r
at_work_le (running t (leaves r)) = value_of_le r

module _ {ℓ} {A : Type ℓ} (w : A → ℕ) where
  pub total-le-length : ((a : A) → w a ≤ 1) → (xs : List A) → total w xs ≤ length xs
  total-le-length h [] = omega arith
  total-le-length h (x ∷ xs) = omega (arith, h x, total-le-length h xs)

  pub total-set_le : (xs : List A) (i : ℕ) (v : A) → total w (set xs i v) ≤ total w xs + w v
  total-set_le [] i v = omega arith
  total-set_le (x ∷ xs) zero v = omega arith
  total-set_le (x ∷ xs) (suc i) v = omega (arith, total-set_le xs i v)

module _ (j : Job) where
  pub Move-same :
      {s : Shared} {t : ℕ} {l l' : Local} {s' : Shared} → Move j s t l s' (some l') → s' ≡ s
  Move-same gives_up = refl
  Move-same (sees_stop e) = refl
  Move-same (sees_none e) = refl
  Move-same (runs o) = refl
  Move-same (breaks e) = refl
  Move-same (retries e) = refl

  -- A task that should stop takes no new run up.
  pub Move-in_hand :
      {s : Shared} {t : ℕ} {l l' : Local} {s' : Shared}
      → s.should_stop ≡ true
      → Move j s t l s' (some l')
      → in_hand l' ≤ in_hand l
  Move-in_hand b gives_up = omega arith
  Move-in_hand b (sees_stop e) = omega arith
  Move-in_hand b (sees_none e) = absurd (cc)
  Move-in_hand b (runs {r = r} o) = value_of_le r
  Move-in_hand b (breaks e) = omega arith
  Move-in_hand b (retries e) = omega arith
