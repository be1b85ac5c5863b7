-- ===== src/Retry/Laws.antt =====
-- Which attempt's result `retry_if_fail` returns, and the world that it leaves.
use code_contests.Prelude.{
  ℕ, zero, suc, ◌+◌, ◌<◌, ◌≡◌, refl, ap, ◌∙◌, ◌⊎◌, inl, inr, true, false, arith, Bool-cases,
  if◌then◌else◌,
}
use code_contests.Status.{StatusOr}
use code_contests.Retry.{max_test_attempts, no_attempts, stops, retry_loop, retry_if_fail}

module _ {ℓ κ} {A : Type ℓ} {W : Type κ} (fn : W → StatusOr A × W) (pause : W → W) where
  -- The k-th attempt, counted from 0, if each one before it failed.
  abbrev pub attempt : ℕ → W → StatusOr A × W
  attempt zero w = fn w
  attempt (suc k) w = attempt k (pause (fn w).1)

  -- What the k-th attempt leaves: after a failure there is a pause, also after the last one.
  abbrev pub settled : StatusOr A × W → StatusOr A × W
  settled (r, w) = if stops r then (r, w) else (r, pause w)

  -- The k-th attempt is the one that decides, of `n` in all.
  pub record Decides (n k : ℕ) (w : W) : Type (ℓ ⊔ κ) where
    pub within : k < n
    pub earlier : (j : ℕ) → j < k → stops (attempt j w).0 ≡ false
    pub final : (stops (attempt k w).0 ≡ true) ⊎ (k + 1 ≡ n)

  earlier_shift :
      {k : ℕ} {w : W}
      → stops (fn w).0 ≡ false
      → ((j : ℕ) → j < k → stops (attempt j (pause (fn w).1)).0 ≡ false)
      → (j : ℕ) → j < suc k
      → stops (attempt j w).0 ≡ false
  earlier_shift more rest zero h = more
  earlier_shift more rest (suc j) h = rest j (omega arith)

  retry_loop_lem :
      (n : ℕ) (r : StatusOr A) (w : W)
      → (k : ℕ) × Decides (suc n) k w × (retry_loop fn pause (suc n) r w ≡ settled (attempt k w))
  unfolding retry_loop
  retry_loop_lem zero r w = (
    0,
    record { within = omega arith; earlier = λ j h. elim h [ ]; final = inr refl },
    ground arith,
  )
  retry_loop_lem (suc n) r w = elim (Bool-cases (stops (fn w).0)) [
    | inl stop ↦ (
      0,
      record { within = omega arith; earlier = λ j h. elim h [ ]; final = inl stop },
      ground arith,
    )
    | inr more ↦
        let (k, d, e) = retry_loop_lem n (fn w).0 (pause (fn w).1) in
        (
          suc k,
          record {
            within = omega (arith, d.within);
            earlier = earlier_shift more d.earlier;
            final = ground (arith, d.final);
          },
          ground (arith, e),
        )
  ]

  -- Of at most three attempts one decides: each attempt before it failed in a way that is attempted
  -- again, and it stopped the loop itself or was the third. Its result is returned, never the
  -- placeholder from before the loop, and the world is the one that it left, after one more pause
  -- where the third attempt failed too.
  pub retry_if_fail_lem :
      (w : W)
      → (k : ℕ) × Decides max_test_attempts k w × (retry_if_fail fn pause w ≡ settled (attempt k w))
  unfolding retry_if_fail
  retry_if_fail_lem w = retry_loop_lem 2 no_attempts w

  -- The world in which the k-th attempt is made.
  abbrev pub entering : ℕ → W → W
  entering zero w = w
  entering (suc k) w = entering k (pause (fn w).1)

  attempt-entering : (k : ℕ) (w : W) → attempt k w ≡ fn (entering k w)
  attempt-entering zero w = refl
  attempt-entering (suc k) w = attempt-entering k (pause (fn w).1)

  pub settled-result : (p : StatusOr A × W) → (settled p).0 ≡ p.0
  settled-result (r, w) = elim (Bool-cases (stops r)) [ inl h ↦ rw h refl | inr h ↦ rw h refl ]

  -- The result is one that the action gave in one of the attempts.
  pub retry_if_fail-entering :
      (w : W)
      → (k : ℕ) × (k < max_test_attempts) × (retry_if_fail fn pause w ≡ settled (fn (entering k w)))
  retry_if_fail-entering w =
      let (k, d, e) = retry_if_fail_lem w in (k, d.within, e ∙ ap settled (attempt-entering k w))

  pub retry_if_fail-result :
      (w : W)
      → (k : ℕ) × (k < max_test_attempts) × ((retry_if_fail fn pause w).0 ≡ (fn (entering k w)).0)
  retry_if_fail-result w =
      let (k, within, e) = retry_if_fail-entering w in
      (k, within, ap (λ p. p.0) e ∙ settled-result (fn (entering k w)))
