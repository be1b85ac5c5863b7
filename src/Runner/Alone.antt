-- ===== src/Runner/Alone.antt =====
-- A task of `Test` that runs while no other task takes a step.
use code_contests.Prelude.{
  ℕ, zero, suc, true, false, ◌≡◌, refl, ap, ◌∙◌, ◌⊎◌, inl, inr, some, List, [], ◌∷◌, arith, subst,
}
use code_contests.Status.{StatusOr, Error, ok, err, code_is_cancelled}
use code_contests.Results.{ExecutionResult}
use code_contests.Pool.Serial.{Within, here, move, Executes, Serial}
use code_contests.Runner.Task.{
  Job, Shared, Local, head, called, got, leaves, Move, text_at, publish, should_stop_error,
  gives_up, sees_stop, sees_none, runs, breaks, retries, tasks,
}
use code_contests.Runner.Tracking.{Sound, Tracked, Leaves, Move-Tracked, Move-Leaves}
use code_contests.Runner.Correctness.{Cancels}

module _ (j : Job) where
  open j use {inputs, Outcome}

  Within-Tracked :
      {t : ℕ} {s s₁ : Shared} {l : Local}
      → Within (tasks j) t s ((tasks j).begin t) s₁ l
      → (s₁ ≡ s) × Tracked j s₁ t l
  Within-Tracked here = (refl, tt)
  Within-Tracked (move w m) =
      let (same, h) = Within-Tracked w in let (still, h') = Move-Tracked j m h in (still ∙ same, h')

  -- A task that sees at once that it should stop.
  abbrev Seen : Local → Type 0
  Seen (head zero r) = ⊥
  Seen (head (suc left) r) = Unit
  Seen (called left) = ⊥
  Seen (got left r) = r ≡ should_stop_error
  Seen (leaves r) = r ≡ should_stop_error

  Move-Seen :
      {t : ℕ} {s s' : Shared} {l l' : Local}
      → s.should_stop ≡ true
      → Move j s t l s' (some l')
      → Seen l
      → Seen l'
  Move-Seen b gives_up h = absurd h
  Move-Seen b (sees_stop e) h = refl
  Move-Seen b (sees_none e) h = absurd (cc)
  Move-Seen b (runs o) h = absurd h
  Move-Seen b (breaks e) h = h
  Move-Seen b (retries {r = err x} e) h = absurd (ground arith)
  Move-Seen b (retries {r = ok x} e) h = absurd (ground arith)

  Within-Seen :
      {t : ℕ} {s s₁ : Shared} {l : Local}
      → s.should_stop ≡ true
      → Within (tasks j) t s ((tasks j).begin t) s₁ l
      → Seen l
  Within-Seen b here = tt
  Within-Seen b (move w m) =
      let (same, _) = Within-Tracked w in
      Move-Seen (ap (λ (s : Shared). s.should_stop) same ∙ b) m (Within-Seen b w)

  stopped-Leaves :
      (s s₁ s' : Shared) (t : ℕ) (r : StatusOr ExecutionResult)
      → r ≡ should_stop_error
      → s₁ ≡ s
      → Leaves j s₁ t r s'
      → s' ≡ s
  stopped-Leaves s s₁ s' t r e same (inl (_, f)) = f ∙ same
  stopped-Leaves s s₁ s' t r e same (inr (c, f)) = absurd (ground arith)

  Executes-stopped :
      (s : Shared) (t : ℕ) (s' : Shared) → s.should_stop ≡ true → Executes (tasks j) s t s' → s' ≡ s
  Executes-stopped s t s' b (s₁, l, w, m) =
      let (r, at, lv) = Move-Leaves j m in
      let (same, _) = Within-Tracked w in
      stopped-Leaves s s₁ s' t r (subst Seen at (Within-Seen b w)) same lv

  pub Serial-stopped :
      (s : Shared) (ts : List ℕ) (s' : Shared)
      → s.should_stop ≡ true
      → Serial (tasks j) s ts s'
      → s' ≡ s
  Serial-stopped s [] s' b h = h
  Serial-stopped s (t ∷ ts) s' b (s₁, x, h) =
      let same = Executes-stopped s t s₁ b x in
      Serial-stopped s₁ ts s' (ap (λ (s : Shared). s.should_stop) same ∙ b) h ∙ same

  -- What a task does that need not stop: a result, an error or a cancellation of RunCodeOnInput.
  abbrev pub Does : Shared → ℕ → Shared → Type 0
  Does s t s' =
      ((x : ExecutionResult) × Outcome (text_at inputs t) (ok x) × (s' ≡ publish j t (ok x) s))
      ⊎ ((e : Error) × Outcome (text_at inputs t) (err e)
          × (code_is_cancelled e.code ≡ false)
          × (s' ≡ publish j t (err e) s))
      ⊎ (Cancels j t × (s' ≡ s))

  Leaves-Does :
      (s s' : Shared) (t : ℕ) (r : StatusOr ExecutionResult)
      → s.should_stop ≡ false
      → Sound j s t r
      → Leaves j s t r s'
      → Does s t s'
  Leaves-Does s s' t (ok x) b o (inl (c, e)) = absurd (cc)
  Leaves-Does s s' t (ok x) b o (inr (c, e)) = inl (x, o, e)
  Leaves-Does s s' t (err y) b (inl o) (inl (c, e)) = inr (inr ((y, o, c), e))
  Leaves-Does s s' t (err y) b (inl o) (inr (c, e)) = inr (inl (y, o, c, e))
  Leaves-Does s s' t (err y) b (inr (_, stop)) h = absurd (cc)

  pub Executes-Does :
      (s : Shared) (t : ℕ) (s' : Shared)
      → s.should_stop ≡ false
      → Executes (tasks j) s t s'
      → Does s t s'
  Executes-Does s t s' b (s₁, l, w, m) =
      let (r, at, lv) = Move-Leaves j m in
      let (same, h) = Within-Tracked w in
      Leaves-Does s s' t r b (subst (λ u. Sound j u t r) same (subst (Tracked j s₁ t) at h))
        (subst (λ u. Leaves j u t r s') same lv)
