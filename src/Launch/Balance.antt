-- ===== src/Launch/Balance.antt =====
-- Who closes the descriptors that a new sandbox receives.
use code_contests.Prelude.{
  subst, sym, ℕ, length, ◌+◌, ◌≡◌, refl, ◌⊎◌, inl, inr, some, List, [], ◌∷◌, Text, total, arith,
}
use code_contests.Status.{StatusOr, Error, ok, err}
use code_contests.Status.Laws.{StatusOr-cases}
use code_contests.Sandbox.{SandboxWithOutputFds, construct}
use code_contests.Sandbox.Ownership.{holds, owns}
use code_contests.Runner.Task.{TestOptions}
use code_contests.Launch.{
  Library, executor_of, World, Executor, Paths, receive, provide_stdin, finish,
  create_sandbox_with_fds,
}

module _ (lib : Library) (path : Text) (args : List Text) (stdin_data : Text) (paths : Paths)
    (options : TestOptions) (cwd : Text) (env : List Text) (w : World lib) where
  pub created :
      (mapped : List (ℕ × ℕ))
      → (provide_stdin lib stdin_data w).0 ≡ ok mapped
      → create_sandbox_with_fds lib (path ∷ args) stdin_data paths options cwd env w
        ≡ finish lib
            (record (executor_of lib path (path ∷ args) options cwd env) { mapped = mapped })
            paths
            (receive lib 1 (provide_stdin lib stdin_data w).1).0
            (receive lib 2 (receive lib 1 (provide_stdin lib stdin_data w).1).1).0
            (receive lib 2 (receive lib 1 (provide_stdin lib stdin_data w).1).1).1
  unfolding create_sandbox_with_fds
  created mapped h = rw (create_sandbox_with_fds, h) refl

  pub not_created :
      (y : Error)
      → (provide_stdin lib stdin_data w).0 ≡ err y
      → create_sandbox_with_fds lib (path ∷ args) stdin_data paths options cwd env w
        ≡ (err y, (provide_stdin lib stdin_data w).1)
  unfolding create_sandbox_with_fds
  not_created y h = rw (create_sandbox_with_fds, h) refl

module _ (lib : Library) (d : ℕ) where
  abbrev got : World lib → ℕ
  got w = total (λ fd. holds d (some fd)) w.received

  -- What a result must close.
  abbrev pub result_owns : StatusOr SandboxWithOutputFds → ℕ
  result_owns (ok s) = owns d s
  result_owns (err e) = 0

  receive-got :
      (fd : ℕ) (w : World lib)
      → got (receive lib fd w).1 ≡ holds d (some (receive lib fd w).0) + got w
  unfolding receive
  receive-got fd w = refl

  -- Between two worlds, as many of `d` were received as were closed, and `n` more.
  abbrev pub Balance : World lib → World lib → ℕ → Type 0
  Balance w w' n = got w' + w.os.closes d ≡ got w + (w'.os.closes d + n)

  Balance-provide_stdin : (s : Text) (w : World lib) → Balance w (provide_stdin lib s w).1 0
  unfolding provide_stdin receive
  Balance-provide_stdin [] w = ground arith
  Balance-provide_stdin (c ∷ s) w =
      elim (StatusOr-cases (lib.create_with_size (length (c ∷ s)) w.state).0) [
        | inl (buffer, e) ↦ rw (provide_stdin, e) (omega arith)
        | inr (x, e) ↦ rw (provide_stdin, e) (omega arith)
      ]

  Balance-finish :
      (x : Executor) (paths : Paths) (o e : ℕ) (w : World lib)
      → ((s : SandboxWithOutputFds) × ((finish lib x paths o e w).0 ≡ ok s)
          × Balance w (finish lib x paths o e w).1 0
          × (owns d s ≡ holds d (some o) + holds d (some e)))
        ⊎ ((y : Error) × ((lib.create_policy x.path paths w.state).0 ≡ err y)
            × ((finish lib x paths o e w).0 ≡ err y)
            × ((finish lib x paths o e w).1.received ≡ w.received)
            × Balance w (finish lib x paths o e w).1 0)
  unfolding finish construct
  Balance-finish x paths o e w = elim (StatusOr-cases (lib.create_policy x.path paths w.state).0) [
    | inl (policy, h) ↦ inl (
      construct (some (lib.make_sandbox x policy (lib.create_policy x.path paths w.state).1).0)
          (some o) (some e),
      rw (finish, h) refl,
      rw (finish, h) (omega arith),
      refl,
    )
    | inr (y, h) ↦
        inr (y, h, rw (finish, h) refl, rw (finish, h) refl, rw (finish, h) (omega arith))
  ]

  -- The last two descriptors are lost: they were received, and nobody closes them.
  abbrev pub Lost : Error → Paths → World lib → World lib → Type 0
  Lost y paths w w' =
      (path : Text) × (state : lib.State) × ((lib.create_policy path paths state).0 ≡ err y)
      × (o : ℕ) × (e : ℕ) × (rest : List ℕ) × (w'.received ≡ e ∷ o ∷ rest)
      × Balance w w' (holds d (some o) + holds d (some e))

  abbrev pub Balanced : Paths → World lib → StatusOr SandboxWithOutputFds × World lib → Type 0
  Balanced paths w (r, w') =
      ((s : SandboxWithOutputFds) × (r ≡ ok s) × Balance w w' (owns d s))
      ⊎ ((y : Error) × (r ≡ err y) × (Balance w w' 0 ⊎ Lost y paths w w'))

  sum_up :
      (g g₁ g' k k₁ k' o e n : ℕ)
      → g₁ + k ≡ g + (k₁ + 0)
      → g' + k₁ ≡ (e + (o + g₁)) + (k' + 0)
      → n ≡ o + e
      → g' + k ≡ g + (k' + n)
  sum_up g g₁ g' k k₁ k' o e n p q r = omega (arith, p, q, r)

  Balance-outputs :
      (w w₁ w' : World lib) (n : ℕ)
      → Balance w w₁ 0
      → Balance (receive lib 2 (receive lib 1 w₁).1).1 w' 0
      → n
        ≡ holds d (some (receive lib 1 w₁).0)
          + holds d (some (receive lib 2 (receive lib 1 w₁).1).0)
      → Balance w w' n
  unfolding receive
  Balance-outputs w w₁ w' n b c e =
      sum_up (got w) (got w₁) (got w') (w.os.closes d) (w₁.os.closes d) (w'.os.closes d) _ _ n b c e

  Balanced-outputs :
      (x : Executor) (paths : Paths) (w w₁ : World lib)
      → Balance w w₁ 0
      → Balanced paths w (
          finish lib x paths
            (receive lib 1 w₁).0
            (receive lib 2 (receive lib 1 w₁).1).0
            (receive lib 2 (receive lib 1 w₁).1).1)
  unfolding receive
  Balanced-outputs x paths w w₁ b =
      let w₂ = (receive lib 1 w₁).1 in
      let w₃ = (receive lib 2 w₂).1 in
      let w' = (finish lib x paths (receive lib 1 w₁).0 (receive lib 2 w₂).0 w₃).1 in
      elim (Balance-finish x paths (receive lib 1 w₁).0 (receive lib 2 w₂).0 w₃) [
        | inl (s, h, c, own) ↦ inl (s, h, Balance-outputs w w₁ w' (owns d s) b c own)
        | inr (y, failed, h, same, c) ↦ inr (
          y,
          h,
          inr (
            x.path,
            w₃.state,
            failed,
            (receive lib 1 w₁).0,
            (receive lib 2 w₂).0,
            w₁.received,
            same,
            Balance-outputs w w₁ w' _ b c refl,
          ),
        )
      ]

  -- Who closes what CreateSandboxWithFds receives. If it returns an object, every descriptor that it
  -- received was closed, or is held by the object to be closed, as often as it was received. If it
  -- fails, all were closed, except where CreatePolicy gave the error: then the two descriptors of the
  -- outputs, the last that were received, were neither closed nor handed on.
  pub create_sandbox_with_fds-balance :
      (command : List Text) (stdin_data : Text) (paths : Paths) (options : TestOptions) (cwd : Text)
      (env : List Text) (w : World lib)
      → Balanced paths w (create_sandbox_with_fds lib command stdin_data paths options cwd env w)
  unfolding create_sandbox_with_fds
  create_sandbox_with_fds-balance [] stdin_data paths options cwd env w =
      inr (_, refl, inl (omega arith))
  create_sandbox_with_fds-balance (path ∷ args) stdin_data paths options cwd env w =
      let w₁ = (provide_stdin lib stdin_data w).1 in
      let b = Balance-provide_stdin stdin_data w in
      elim (StatusOr-cases (provide_stdin lib stdin_data w).0) [
        | inl (mapped, h) ↦
            let x = record (executor_of lib path (path ∷ args) options cwd env) {
              mapped = mapped;
            } in
            subst (Balanced paths w)
              (sym (created lib path args stdin_data paths options cwd env w mapped h))
              (Balanced-outputs x paths w w₁ b)
        | inr (y, h) ↦
            subst (Balanced paths w)
              (sym (not_created lib path args stdin_data paths options cwd env w y h))
              (inr (y, refl, inl b))
      ]
