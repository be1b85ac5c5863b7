-- ===== src/Launch/Outputs.antt =====
-- The descriptors of a new sandbox's outputs.
use code_contests.Prelude.{ap, ℕ, ◌≡◌, ◌≢◌, ◌∙◌, sym, subst, inl, inr, some, List, [], ◌∷◌, Text}
use code_contests.Status.{ok}
use code_contests.Status.Laws.{StatusOr-cases}
use code_contests.Sandbox.{SandboxWithOutputFds, construct}
use code_contests.Sandbox.Caching.{Apart}
use code_contests.Runner.Task.{TestOptions}
use code_contests.Launch.{
  Library, World, Executor, Paths, receive, finish, create_sandbox_with_fds, provide_stdin,
}
use code_contests.Launch.Balance.{created, not_created}
use code_contests.Launch.Bounds.{finish_ok, finish_err}

module _ (lib : Library) where
  -- ReceiveFd gives the two outputs different descriptors.
  abbrev pub ReceivesApart : Type 0
  ReceivesApart =
      (state : lib.State)
      → (lib.receive_fd 1 state).0 ≢ (lib.receive_fd 2 (lib.receive_fd 1 state).1).0

  construct-Apart :
      (n o e : ℕ)
      → o ≢ e
      → Apart
          (construct (some n) (some o) (some e)).stdout_fd
          (construct (some n) (some o) (some e)).stderr_fd
  unfolding construct
  construct-Apart n o e h d p q = h (cc)

  -- The object was constructed around a sandbox, for two descriptors that were received.
  abbrev pub Constructed : SandboxWithOutputFds → Type 0
  Constructed s =
      (n : ℕ) × (state : lib.State) × (construct (some n) (some (lib.receive_fd 1 state).0)
          (some (lib.receive_fd 2 (lib.receive_fd 1 state).1).0)
        ≡ s)

  finished :
      (x : Executor) (paths : Paths) (o e : ℕ) (w : World lib) (s : SandboxWithOutputFds)
      → (finish lib x paths o e w).0 ≡ ok s
      → (n : ℕ) × (construct (some n) (some o) (some e) ≡ s)
  finished x paths o e w s h = elim (StatusOr-cases (lib.create_policy x.path paths w.state).0) [
    | inl (policy, k) ↦ (
      (lib.make_sandbox x policy (lib.create_policy x.path paths w.state).1).0,
      cc (sym (finish_ok lib x paths o e w policy k) ∙ h),
    )
    | inr (y, k) ↦ absurd (cc (sym (finish_err lib x paths o e w y k) ∙ h))
  ]

  pub create_sandbox_with_fds-Constructed :
      (command : List Text) (stdin_data : Text) (paths : Paths) (options : TestOptions) (cwd : Text)
      (env : List Text) (w : World lib) (s : SandboxWithOutputFds)
      → (create_sandbox_with_fds lib command stdin_data paths options cwd env w).0 ≡ ok s
      → Constructed s
  unfolding create_sandbox_with_fds receive
  create_sandbox_with_fds-Constructed [] stdin_data paths options cwd env w s e = cc
  create_sandbox_with_fds-Constructed (path ∷ args) stdin_data paths options cwd env w s e =
      elim (StatusOr-cases (provide_stdin lib stdin_data w).0) [
        | inl (mapped, k) ↦
            let (n, same) = finished _ paths _ _ _ s (
              ap (λ r. r.0)
                (sym (created lib path args stdin_data paths options cwd env w mapped k))
              ∙ e) in
            (n, (provide_stdin lib stdin_data w).1.state, same)
        | inr (y, k) ↦ absurd (
            cc (
              sym (ap (λ r. r.0) (not_created lib path args stdin_data paths options cwd env w y k))
              ∙ e))
      ]

  -- The outputs of such an object have descriptors of their own, if those that ReceiveFd gives
  -- differ.
  pub Constructed-Apart :
      (s : SandboxWithOutputFds) → ReceivesApart → Constructed s → Apart s.stdout_fd s.stderr_fd
  Constructed-Apart s h (n, state, same) =
      subst (λ (y : SandboxWithOutputFds). Apart y.stdout_fd y.stderr_fd) same
        (construct-Apart n _ _ (h state))

  pub Constructed-sandbox :
      (s : SandboxWithOutputFds) → Constructed s → (n : ℕ) × (s.sandbox ≡ some n)
  unfolding construct
  Constructed-sandbox s (n, state, same) =
      (n, ap (λ (y : SandboxWithOutputFds). y.sandbox) (sym same))
