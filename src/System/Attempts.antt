-- ===== src/System/Attempts.antt =====
-- CompileCode of a Python tester inside `RetryIfFail`, where an exception that nothing catches ends the
-- process, and a read that never ends holds it.
use code_contests.Prelude.{
  ℕ, zero, suc, ◌<◌, ◌≤◌, ◌≡◌, refl, sym, ap, ◌∙◌, Option, some, none, inl, inr, Bool-cases, [],
  Text, arith,
}
use code_contests.Status.{StatusOr, Error, ok, err, error, cancelled}
use code_contests.Absl.{Absl}
use code_contests.Retry.{max_test_attempts, retry_if_fail, stops}
use code_contests.Retry.Laws.{entering, settled, settled-result, retry_if_fail-entering}
use code_contests.Results.{ExecutionResult}
use code_contests.Runner.{max_compilation_duration}
use code_contests.Host.{Host}
use code_contests.Launch.{World}
use code_contests.Python.{PyTesterSandboxer}
use code_contests.Python.Calls.{library}
use code_contests.Python.Action.{Result, value, fails, throws}
use code_contests.Python.Compile.{compile_code}

module _ (absl : Absl) (host : Host) (tester : PyTesterSandboxer) (code : Text)
    (pause : World (library host tester) → World (library host tester)) (path : Text) where
  -- The process: it runs, an exception has ended it, or it waits for a read that never ends.
  pub data Process : Type 0 where
    alive : World (library host tester) → Process
    dead : Process
    stuck : Process

  -- Where CompileCode does not return, nothing looks at this result.
  abbrev no_result : StatusOr ExecutionResult
  no_result = error cancelled []

  abbrev left_by :
      Option (Result ExecutionResult × World (library host tester))
      → StatusOr ExecutionResult × Process
  left_by none = (no_result, stuck)
  left_by (some (value x, w)) = (ok x, alive w)
  left_by (some (fails e, w)) = (err e, alive w)
  left_by (some (throws, w)) = (no_result, dead)

  abbrev pub compile_at : ℕ → Process → StatusOr ExecutionResult × Process
  compile_at limit (alive w) = left_by (compile_code absl host tester code path limit w)
  compile_at limit dead = (no_result, dead)
  compile_at limit stuck = (no_result, stuck)

  abbrev pub pause_at : Process → Process
  pause_at (alive w) = alive (pause w)
  pause_at dead = dead
  pause_at stuck = stuck

  abbrev attempt : Process → StatusOr ExecutionResult × Process
  attempt = compile_at max_compilation_duration

  abbrev pub Gives : World (library host tester) → Result ExecutionResult → Type 0
  Gives w r =
      (w' : World (library host tester)) × (compile_code absl host tester code path
          max_compilation_duration w
        ≡ some (r, w'))

  -- One of the attempts from the world `w` is made in `w₀`.
  abbrev pub Enters : World (library host tester) → World (library host tester) → Type 0
  Enters w w₀ =
      (k : ℕ) × (k < max_test_attempts) × (entering attempt pause_at k (alive w) ≡ alive w₀)

  -- CompileCode gave this in one of the attempts.
  abbrev pub GivesIn : World (library host tester) → Result ExecutionResult → Type 0
  GivesIn w r = (w₀ : World (library host tester)) × Enters w w₀ × Gives w₀ r

  value_of :
      (o : Option (Result ExecutionResult × World (library host tester))) (x : ExecutionResult)
      → (left_by o).0 ≡ ok x
      → (w' : World (library host tester)) × (o ≡ some (value x, w'))
  value_of none x e = absurd (cc)
  value_of (some (value y, w)) x e = (w, cc)
  value_of (some (fails y, w)) x e = absurd (cc)
  value_of (some (throws, w)) x e = absurd (cc)

  -- A value comes from an attempt in a process that runs.
  pub attempt-value :
      (p : Process) (x : ExecutionResult)
      → (attempt p).0 ≡ ok x
      → (w₀ : World (library host tester)) × (p ≡ alive w₀) × Gives w₀ (value x)
  attempt-value (alive w) x e = (w, refl, value_of _ x e)
  attempt-value dead x e = absurd (cc)
  attempt-value stuck x e = absurd (cc)

  error_of :
      (o : Option (Result ExecutionResult × World (library host tester))) (e : Error)
      (w : World (library host tester))
      → (left_by o).0 ≡ err e
      → (settled attempt pause_at (left_by o)).1 ≡ alive w
      → (w' : World (library host tester)) × (o ≡ some (fails e, w'))
  error_of none e w h k = absurd (cc)
  error_of (some (value y, w')) e w h k = absurd (cc)
  error_of (some (fails y, w')) e w h k = (w', cc)
  error_of (some (throws, w')) e w h k = absurd (cc)

  attempt-error :
      (p : Process) (e : Error) (w : World (library host tester))
      → (attempt p).0 ≡ err e
      → (settled attempt pause_at (attempt p)).1 ≡ alive w
      → (w₀ : World (library host tester)) × (p ≡ alive w₀) × Gives w₀ (fails e)
  attempt-error (alive w₀) e w h k = (w₀, refl, error_of _ e w h k)
  attempt-error dead e w h k = absurd (cc)
  attempt-error stuck e w h k = absurd (cc)

  abbrev pub retried : World (library host tester) → StatusOr ExecutionResult × Process
  retried w = retry_if_fail attempt pause_at (alive w)

  -- An error with which RetryIfFail comes back is one that CompileCode returned.
  pub retried-error :
      (w w' : World (library host tester)) (e : Error)
      → (retried w).0 ≡ err e
      → (retried w).1 ≡ alive w'
      → GivesIn w (fails e)
  retried-error w w' e h k =
      let (n, within, same) = retry_if_fail-entering attempt pause_at (alive w) in
      let p = entering attempt pause_at n (alive w) in
      let (w₀, is, gives) =
        attempt-error p e w'
          (sym (settled-result attempt pause_at (attempt p)) ∙ sym (ap (λ r. r.0) same) ∙ h)
          (sym (ap (λ r. r.1) same) ∙ k) in
      (w₀, (n, within, is), gives)

  stuck_stays : (k : ℕ) → entering attempt pause_at k stuck ≡ stuck
  stuck_stays zero = refl
  stuck_stays (suc k) = stuck_stays k

  -- An attempt up to the k-th threw.
  abbrev ThrowsBy : ℕ → World (library host tester) → Type 0
  ThrowsBy k w =
      (j : ℕ) × (j ≤ k)
      × (w₀ : World (library host tester)) × (entering attempt pause_at j (alive w) ≡ alive w₀)
      × Gives w₀ throws

  now_or_later :
      (k : ℕ) (w : World (library host tester))
      (o : Option (Result ExecutionResult × World (library host tester)))
      → compile_code absl host tester code path max_compilation_duration w ≡ o
      → (attempt (entering attempt pause_at k (pause_at (left_by o).1))).1 ≡ dead
      → ((w' : World (library host tester))
          → (attempt (entering attempt pause_at k (alive (pause w')))).1 ≡ dead
          → ThrowsBy k (pause w'))
      → ThrowsBy (suc k) w
  now_or_later k w none e h rec = absurd (cc (ap (λ p. (attempt p).1) (sym (stuck_stays k)) ∙ h))
  now_or_later k w (some (throws, w')) e h rec = (0, omega arith, w, refl, (w', e))
  now_or_later k w (some (value x, w')) e h rec =
      let (j, within, w₀, at, gives) = rec w' h in
      (
        suc j,
        omega (arith, within),
        w₀,
        ap (λ o. entering attempt pause_at j (pause_at (left_by o).1)) e ∙ at,
        gives,
      )
  now_or_later k w (some (fails x, w')) e h rec =
      let (j, within, w₀, at, gives) = rec w' h in
      (
        suc j,
        omega (arith, within),
        w₀,
        ap (λ o. entering attempt pause_at j (pause_at (left_by o).1)) e ∙ at,
        gives,
      )

  thrown_at :
      (o : Option (Result ExecutionResult × World (library host tester)))
      → (left_by o).1 ≡ dead
      → (w' : World (library host tester)) × (o ≡ some (throws, w'))
  thrown_at none h = absurd (cc)
  thrown_at (some (value x, w)) h = absurd (cc)
  thrown_at (some (fails x, w)) h = absurd (cc)
  thrown_at (some (throws, w)) h = (w, refl)

  thrown_by :
      (k : ℕ) (w : World (library host tester))
      → (attempt (entering attempt pause_at k (alive w))).1 ≡ dead
      → ThrowsBy k w
  thrown_by zero w h = (0, omega arith, w, refl, thrown_at _ h)
  thrown_by (suc k) w h =
      now_or_later k w (compile_code absl host tester code path max_compilation_duration w) refl h
        (λ w' d. thrown_by k (pause w') d)

  unpaused : (p : Process) → pause_at p ≡ dead → p ≡ dead
  unpaused (alive w) e = absurd (cc)
  unpaused dead e = refl
  unpaused stuck e = absurd (cc)

  settled-dead :
      (q : StatusOr ExecutionResult × Process) → (settled attempt pause_at q).1 ≡ dead → q.1 ≡ dead
  settled-dead (r, p) h = elim (Bool-cases (stops r)) [
    | inl b ↦ ground arith
    | inr b ↦ unpaused p (ground arith)
  ]

  -- Where RetryIfFail does not come back because of an exception, CompileCode threw it.
  pub retried-dead : (w : World (library host tester)) → (retried w).1 ≡ dead → GivesIn w throws
  retried-dead w h =
      let (n, within, same) = retry_if_fail-entering attempt pause_at (alive w) in
      let (j, before, w₀, at, gives) = thrown_by n w (
        settled-dead (attempt (entering attempt pause_at n (alive w)))
          (sym (ap (λ r. r.1) same) ∙ h)) in
      (w₀, (j, omega (arith, within, before), at), gives)
