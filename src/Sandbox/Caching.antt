-- ===== src/Sandbox/Caching.antt =====
-- Reading an output twice, after a move, and both outputs in either order.
use code_contests.Prelude.{
  ℕ, ◌≡◌, refl, sym, ◌≢◌, inl, inr, Option, none, some, List, Text, arith, fun_ext, Option-cases,
  ap,
}
use code_contests.Status.{StatusOr}
use code_contests.Absl.{Absl}
use code_contests.Descriptors.{ReadOutcome, read_fd}
use code_contests.Sandbox.{
  Os, Fd, Cache, update, close, Stream, read_and_close, use_cache_or_read_and_close,
  SandboxWithOutputFds, stdout, stderr,
}

module _ (absl : Absl) where
  -- The second call has the cache, or no descriptor either.
  use_twice :
      (fd : Fd) (cache : Cache) (os os' : Os) (r : StatusOr Text) (t : Stream)
      → use_cache_or_read_and_close absl fd cache os ≡ some (r, t, os')
      → use_cache_or_read_and_close absl t.fd t.cache os' ≡ some (r, t, os')
  unfolding use_cache_or_read_and_close
  use_twice fd (some c) os os' r t e = ground arith
  use_twice none none os os' r t e = ground arith
  use_twice (some fd) none os os' r t e = ground arith

  -- After a call of `Stdout` that returned, every further call returns the same result, success or
  -- error, and changes neither the object nor the descriptors.
  pub stdout-stdout :
      (s s' : SandboxWithOutputFds) (os os' : Os) (r : StatusOr Text)
      → stdout absl s os ≡ some (r, s', os')
      → stdout absl s' os' ≡ some (r, s', os')
  unfolding stdout
  stdout-stdout s s' os os' r e = ground (arith, use_twice s.stdout_fd s.stdout_cache os)

update_comm {ℓ} :
    {A : Type ℓ} (f : ℕ → A) (a b : ℕ) (x y : A)
    → a ≢ b
    → update (update f a x) b y ≡ update (update f b y) a x
update_comm f a b x y h = fun_ext λ j. ground arith

-- The two outputs have descriptors of their own.
abbrev pub Apart : Fd → Fd → Type 0
Apart fd gd = (d : ℕ) → fd ≡ some d → gd ≢ some d

abbrev pub after_read : ℕ → List ReadOutcome → Os → Os
after_read d rest os = close d (record os { reads = update os.reads d rest })

after_read_comm :
    (d g : ℕ) (x y : List ReadOutcome) (os : Os)
    → d ≢ g
    → after_read g y (after_read d x os) ≡ after_read d x (after_read g y os)
after_read_comm d g x y os h = λ i. record { reads = reads i; closes = closes i }
  where
    reads : update (update os.reads d x) g y ≡ update (update os.reads g y) d x
    reads = update_comm os.reads d g x y h

    closes :
        (after_read g y (after_read d x os)).closes ≡ (after_read d x (after_read g y os)).closes
    closes = fun_ext λ j. ground arith

abbrev pub shut : StatusOr Text → Stream
shut r = record { fd = none; cache = some r }

module _ (absl : Absl) where
  read_inv :
      (d : ℕ) (os os' : Os) (r : StatusOr Text) (t : Stream)
      → read_and_close absl d os ≡ some (r, t, os')
      → (rest : List ReadOutcome) × (read_fd absl d (os.reads d) ≡ some (r, rest))
        × (t ≡ shut r)
        × (os' ≡ after_read d rest os)
  unfolding read_and_close
  read_inv d os os' r t e = elim (Option-cases (read_fd absl d (os.reads d))) [
    | inl n ↦ absurd (ground arith)
    | inr ((r', rest), n) ↦ (rest, ground arith, ground arith, ground arith)
  ]

  pub read_intro :
      (d : ℕ) (os : Os) (r : StatusOr Text) (rest : List ReadOutcome)
      → read_fd absl d (os.reads d) ≡ some (r, rest)
      → read_and_close absl d os ≡ some (r, shut r, after_read d rest os)
  unfolding read_and_close
  read_intro d os r rest e = rw (e, read_and_close)

  -- The result of two calls one after the other.
  abbrev Both : (m n : Os → Option (StatusOr Text × Stream × Os)) → Os → Type 0
  Both m n os =
      (os₁ os₂ : Os) (r q : StatusOr Text) (t u : Stream)
      → m os ≡ some (r, t, os₁)
      → n os₁ ≡ some (q, u, os₂)
      → (os₃ : Os) × (n os ≡ some (q, u, os₃)) × (m os₃ ≡ some (r, t, os₂))

  read_comm : (d g : ℕ) (os : Os) → d ≢ g → Both (read_and_close absl d) (read_and_close absl g) os
  read_comm d g os h os₁ os₂ r q t u e₁ e₂ =
      let (x, a, ta, oa) = read_inv d os os₁ r t e₁ in
      let (y, b, ub, ob) = read_inv g os₁ os₂ q u e₂ in
      let b' : read_fd absl g (os.reads g) ≡ some (q, y) = ground arith in
      let a' : read_fd absl d ((after_read g y os).reads d) ≡ some (r, x) = ground arith in
      (
        after_read g y os,
        rw ub (read_intro g os q y b'),
        rw (ta, ob, oa, after_read_comm d g x y os h) (read_intro d (after_read g y os) r x a'),
      )

  use_comm :
      (fd gd : Fd) (c k : Cache) (os : Os)
      → Apart fd gd
      → Both (use_cache_or_read_and_close absl fd c) (use_cache_or_read_and_close absl gd k) os
  unfolding use_cache_or_read_and_close
  use_comm (some d) (some g) none none os h os₁ os₂ r q t u e₁ e₂ =
      read_comm d g os (λ e. h d refl (ap some (sym e))) os₁ os₂ r q t u e₁ e₂
  use_comm fd gd (some c) k os h os₁ os₂ r q t u e₁ e₂ = (os₂, ground arith, ground arith)
  use_comm fd gd none (some k) os h os₁ os₂ r q t u e₁ e₂ = (os, ground arith, ground arith)
  use_comm none gd none none os h os₁ os₂ r q t u e₁ e₂ = (os₂, ground arith, ground arith)
  use_comm (some d) none none none os h os₁ os₂ r q t u e₁ e₂ = (os, ground arith, ground arith)

  stdout_inv :
      (s s' : SandboxWithOutputFds) (os os' : Os) (r : StatusOr Text)
      → stdout absl s os ≡ some (r, s', os')
      → (t : Stream) × (use_cache_or_read_and_close absl s.stdout_fd s.stdout_cache os
          ≡ some (r, t, os'))
        × (s' ≡ record s { stdout_fd = t.fd; stdout_cache = t.cache })
  unfolding stdout
  stdout_inv s s' os os' r e =
      elim (Option-cases (use_cache_or_read_and_close absl s.stdout_fd s.stdout_cache os)) [
        | inl n ↦ absurd (ground arith)
        | inr ((r', t, os''), n) ↦ (t, ground arith, ground arith)
      ]

  stderr_inv :
      (s s' : SandboxWithOutputFds) (os os' : Os) (r : StatusOr Text)
      → stderr absl s os ≡ some (r, s', os')
      → (t : Stream) × (use_cache_or_read_and_close absl s.stderr_fd s.stderr_cache os
          ≡ some (r, t, os'))
        × (s' ≡ record s { stderr_fd = t.fd; stderr_cache = t.cache })
  unfolding stderr
  stderr_inv s s' os os' r e =
      elim (Option-cases (use_cache_or_read_and_close absl s.stderr_fd s.stderr_cache os)) [
        | inl n ↦ absurd (ground arith)
        | inr ((r', t, os''), n) ↦ (t, ground arith, ground arith)
      ]

  -- The two outputs are read by two threads, and the order in which they finish does not matter:
  -- with descriptors that differ, `Stdout` and then `Stderr` gives the results, the object and the
  -- descriptors that `Stderr` and then `Stdout` gives.
  pub stdout-stderr_comm :
      (s s₁ s₂ : SandboxWithOutputFds) (os os₁ os₂ : Os) (r q : StatusOr Text)
      → Apart s.stdout_fd s.stderr_fd
      → stdout absl s os ≡ some (r, s₁, os₁)
      → stderr absl s₁ os₁ ≡ some (q, s₂, os₂)
      → (s₃ : SandboxWithOutputFds) × (os₃ : Os) × (stderr absl s os ≡ some (q, s₃, os₃))
        × (stdout absl s₃ os₃ ≡ some (r, s₂, os₂))
  unfolding stdout stderr
  stdout-stderr_comm s s₁ s₂ os os₁ os₂ r q h e₁ e₂ =
      let (t, a, sa) = stdout_inv s s₁ os os₁ r e₁ in
      let (u, b, sb) = stderr_inv s₁ s₂ os₁ os₂ q e₂ in
      let b' : use_cache_or_read_and_close absl s.stderr_fd s.stderr_cache os₁ ≡ some (q, u, os₂) =
        ground arith in
      let (os₃, c, d) =
        use_comm s.stdout_fd s.stderr_fd s.stdout_cache s.stderr_cache os h os₁ os₂ r q t u a b' in
      (record s { stderr_fd = u.fd; stderr_cache = u.cache }, os₃, ground arith, ground arith)

  -- The same from the other order.
  pub stderr-stdout_comm :
      (s s₁ s₂ : SandboxWithOutputFds) (os os₁ os₂ : Os) (r q : StatusOr Text)
      → Apart s.stdout_fd s.stderr_fd
      → stderr absl s os ≡ some (q, s₁, os₁)
      → stdout absl s₁ os₁ ≡ some (r, s₂, os₂)
      → (s₃ : SandboxWithOutputFds) × (os₃ : Os) × (stdout absl s os ≡ some (r, s₃, os₃))
        × (stderr absl s₃ os₃ ≡ some (q, s₂, os₂))
  unfolding stdout stderr
  stderr-stdout_comm s s₁ s₂ os os₁ os₂ r q h e₁ e₂ =
      let (u, a, sa) = stderr_inv s s₁ os os₁ q e₁ in
      let (t, b, sb) = stdout_inv s₁ s₂ os₁ os₂ r e₂ in
      let b' : use_cache_or_read_and_close absl s.stdout_fd s.stdout_cache os₁ ≡ some (r, t, os₂) =
        ground arith in
      let (os₃, c, d) =
        use_comm s.stderr_fd s.stdout_fd s.stderr_cache s.stdout_cache os (λ x p k. h x k p) os₁ os₂
          q r u t a b' in
      (record s { stdout_fd = t.fd; stdout_cache = t.cache }, os₃, ground arith, ground arith)
