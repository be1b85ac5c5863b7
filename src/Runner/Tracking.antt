-- ===== src/Runner/Tracking.antt =====
-- The invariant of a test run: the shared variables, the tasks in the threads, and the tasks that
-- have returned.
use code_contests.Prelude.{
  ℕ, zero, suc, ◌<◌, true, false, ◌≡◌, refl, ◌∙◌, ◌⊎◌, inl, inr, none, some, length, get_elem?, set,
  get_elem?_lt, get_elem?-set_self, get_elem?-set_ne, arith, ℕ_discrete, subst,
}
use code_contests.Status.{StatusOr, Error, ok, err, is_cancelled, code_is_cancelled}
use code_contests.Results.{ExecutionResult}
use code_contests.Runner.Task.{
  Job, Shared, Local, head, called, got, leaves, Move, text_at, judge, publish, gives_up, sees_stop,
  sees_none, runs, breaks, retries, skips, publishes,
}
use code_contests.Runner.Publishing.{Ran}

module _ (j : Job) where
  open j use {inputs, Outcome}

  -- What a result in the hands of task `t` stands for: a result of RunCodeOnInput, or the task has
  -- seen that it should stop.
  abbrev pub Sound : Shared → ℕ → StatusOr ExecutionResult → Type 0
  Sound s t (ok x) = Outcome (text_at inputs t) (ok x)
  Sound s t (err e) =
      Outcome (text_at inputs t) (err e)
      ⊎ ((code_is_cancelled e.code ≡ true) × (s.should_stop ≡ true))

  abbrev pub Tracked : Shared → ℕ → Local → Type 0
  Tracked s t (head zero r) = Sound s t r
  Tracked s t (head (suc left) r) = Unit
  Tracked s t (called left) = Unit
  Tracked s t (got left r) = Sound s t r
  Tracked s t (leaves r) = Sound s t r

  -- `s'` comes from `s`: what was asked to stop stays so.
  abbrev pub Later : Shared → Shared → Type 0
  Later s s' = s.should_stop ≡ true → s'.should_stop ≡ true

  Sound-Later :
      (s s' : Shared) (t : ℕ) (r : StatusOr ExecutionResult)
      → Later s s'
      → Sound s t r
      → Sound s' t r
  Sound-Later s s' t (ok x) h o = o
  Sound-Later s s' t (err e) h (inl o) = inl o
  Sound-Later s s' t (err e) h (inr (c, b)) = inr (c, h b)

  pub Tracked-Later :
      (s s' : Shared) (t : ℕ) (l : Local) → Later s s' → Tracked s t l → Tracked s' t l
  Tracked-Later s s' t (head zero r) h o = Sound-Later s s' t r h o
  Tracked-Later s s' t (head (suc left) r) h o = tt
  Tracked-Later s s' t (called left) h o = tt
  Tracked-Later s s' t (got left r) h o = Sound-Later s s' t r h o
  Tracked-Later s s' t (leaves r) h o = Sound-Later s s' t r h o

  pub Move-Tracked :
      {s : Shared} {t : ℕ} {l l' : Local} {s' : Shared}
      → Move j s t l s' (some l')
      → Tracked s t l
      → (s' ≡ s) × Tracked s' t l'
  Move-Tracked gives_up h = (refl, h)
  Move-Tracked (sees_stop e) h = (refl, inr (refl, e))
  Move-Tracked (sees_none e) h = (refl, tt)
  Move-Tracked (runs {r = ok x} o) h = (refl, o)
  Move-Tracked (runs {r = err e} o) h = (refl, inl o)
  Move-Tracked (breaks e) h = (refl, h)
  Move-Tracked (retries {left = zero} e) h = (refl, h)
  Move-Tracked (retries {left = suc left} e) h = (refl, tt)

  -- A task that returns was cancelled and leaves no trace, or it publishes its result.
  abbrev pub Leaves : Shared → ℕ → StatusOr ExecutionResult → Shared → Type 0
  Leaves s t r s' =
      ((is_cancelled r ≡ true) × (s' ≡ s)) ⊎ ((is_cancelled r ≡ false) × (s' ≡ publish j t r s))

  pub Move-Leaves :
      {s : Shared} {t : ℕ} {l : Local} {s' : Shared}
      → Move j s t l s' none
      → (r : StatusOr ExecutionResult) × (l ≡ leaves r) × Leaves s t r s'
  Move-Leaves (skips {r} e) = (r, refl, inl (e, refl))
  Move-Leaves (publishes {r} e) = (r, refl, inr (e, refl))

  -- What a returned task leaves behind: its result, a run that is to stop, or nothing, since
  -- RunCodeOnInput itself gave a cancellation.
  abbrev pub Handled : Shared → ℕ → Type 0
  Handled s t =
      ((x : ExecutionResult) × (get_elem? s.test_results t ≡ some x) × Ran j t x)
      ⊎ (s.should_stop ≡ true)
      ⊎ ((e : Error) × Outcome (text_at inputs t) (err e) × (code_is_cancelled e.code ≡ true))

  pub publish-Later :
      (s : Shared) (t : ℕ) (r : StatusOr ExecutionResult) → Later s (publish j t r s)
  unfolding publish
  publish-Later s t (ok x) h = ground arith
  publish-Later s t (err e) h = refl

  own-place :
      (s : Shared) (t : ℕ) (x : ExecutionResult)
      → Outcome (text_at inputs t) (ok x)
      → t < length s.test_results
      → (z : ExecutionResult) × (get_elem? (set s.test_results t (judge j t x)) t ≡ some z)
        × Ran j t z
  own-place s t x o h =
      (judge j t x, get_elem?-set_self s.test_results t (judge j t x) h, (x, o, refl))

  -- A result that is stored stays, or is stored anew.
  pub publish-Handled :
      (s : Shared) (t u : ℕ) (r : StatusOr ExecutionResult)
      → Sound s t r
      → Handled s u
      → Handled (publish j t r s) u
  unfolding publish
  publish-Handled s t u r o (inr (inl h)) = inr (inl (publish-Later s t r h))
  publish-Handled s t u r o (inr (inr c)) = inr (inr c)
  publish-Handled s t u (err e) o (inl h) = inl h
  publish-Handled s t u (ok x) o (inl (y, g, r)) = elim (ℕ_discrete t u) [
    | no other ↦ inl (y, get_elem?-set_ne s.test_results t u (judge j t x) other ∙ g, r)
    | yes same ↦ inl (
        subst
          (λ k.
            (z : ExecutionResult) × (get_elem? (set s.test_results t (judge j t x)) k ≡ some z)
            × Ran j k z)
          same (own-place s t x o (omega (arith, get_elem?_lt s.test_results u g, same))))
  ]

  pub own-Handled :
      (s s' : Shared) (t : ℕ) (r : StatusOr ExecutionResult)
      → t < length s.test_results
      → Sound s t r
      → Leaves s t r s'
      → Handled s' t
  unfolding publish
  own-Handled s s' t (ok x) h o (inl (c, e)) = absurd (cc)
  own-Handled s s' t (err e) h (inl o) (inl (c, q)) = inr (inr (e, o, c))
  own-Handled s s' t (err e) h (inr (_, b)) (inl (c, q)) = inr (inl (rw q b))
  own-Handled s s' t (ok x) h o (inr (c, q)) = rw q (inl (own-place s t x o h))
  own-Handled s s' t (err e) h o (inr (c, q)) = rw q (inr (inl refl))
