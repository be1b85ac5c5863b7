-- ===== src/Python/Closing.antt =====
-- Who closes the descriptors of a compilation.
use code_contests.Prelude.{
  arith, ℕ, ◌+◌, ◌≡◌, refl, ◌∙◌, subst, ◌⊎◌, inl, inr, Bool, true, false, Option, none, some, List,
  [], ◌∷◌, Text, Option-cases, if◌then◌else◌,
}
use code_contests.Status.{StatusOr, Error, ok, err}
use code_contests.Absl.{Absl}
use code_contests.Sandbox.{Os, SandboxWithOutputFds, stdout, stderr, destroy}
use code_contests.Sandbox.Ownership.{owns, stdout-closes, stderr-closes, destroy-closes}
use code_contests.Results.{ExecutionResult}
use code_contests.Runner.Task.{default_options}
use code_contests.Host.{Host}
use code_contests.Launch.{World, Paths}
use code_contests.Launch.Balance.{Balance, Balanced, Lost, create_sandbox_with_fds-balance}
use code_contests.Python.{
  PyTesterSandboxer, compilation, in_directory, code_file, binary_file, source_text,
}
use code_contests.Python.Calls.{library, create_compilation_sandbox}
use code_contests.Python.Action.{
  Result, value, fails, throws, Scope, Action, on, on_sandbox, read_stdout, read_stderr, pure, fail,
  asks, changes, leave, go_on, has_read, ◌>>=◌,
}
use code_contests.Python.Compile.{
  require_start, hash_if, copy_only, find_binary, with_hash, run_compiler, compile_in, compile_code,
}

module _ (host : Host) (tester : PyTesterSandboxer) (d : ℕ) where
  -- Nothing is received, and the closed and the held descriptors balance.
  abbrev Kept : Scope host tester → Scope host tester → Type 0
  Kept sc sc' =
      (sc'.world.received ≡ sc.world.received)
      × (sc'.world.os.closes d + owns d sc'.object ≡ sc.world.os.closes d + owns d sc.object)

  abbrev KeptBy : {A : Type 0} → Scope host tester → Option (Result A × Scope host tester) → Type 0
  KeptBy sc none = Unit
  KeptBy sc (some (r, sc')) = Kept sc sc'

  abbrev Keeps : {A : Type 0} → Action host tester A → Type 0
  Keeps m = (sc : Scope host tester) → KeptBy sc (m sc)

  trans-Kept :
      (a b : Scope host tester)
      → Kept a b
      → {A : Type 0} (o : Option (Result A × Scope host tester)) → KeptBy b o
      → KeptBy a o
  trans-Kept a b h none k = tt
  trans-Kept a b (p, q) (some (r, c)) (p', q') = (p' ∙ p, q' ∙ q)

  Keeps-go_on :
      {A B : Type 0} (k : A → Action host tester B)
      → ((a : A) → Keeps (k a))
      → (sc : Scope host tester) (o : Option (Result A × Scope host tester)) → KeptBy sc o
      → KeptBy sc (go_on k o)
  Keeps-go_on k g sc none h = tt
  Keeps-go_on k g sc (some (value a, sc₁)) h = trans-Kept sc sc₁ h (k a sc₁) (g a sc₁)
  Keeps-go_on k g sc (some (fails e, sc₁)) h = h
  Keeps-go_on k g sc (some (throws, sc₁)) h = h

  Keeps->>= :
      {A B : Type 0} (m : Action host tester A) (k : A → Action host tester B)
      → Keeps m
      → ((a : A) → Keeps (k a))
      → Keeps (m >>= k)
  unfolding ◌>>=◌
  Keeps->>= m k h g sc = Keeps-go_on k g sc (m sc) (h sc)

  module _ {A : Type 0} (call : ℕ → host.State → A × host.State) where
    Keeps-on : (sandbox : Option ℕ) → Keeps (on host tester call sandbox)
    Keeps-on none sc = tt
    Keeps-on (some sandbox) sc = (refl, refl)

    Keeps-on_sandbox : Keeps (on_sandbox host tester call)
    unfolding on_sandbox
    Keeps-on_sandbox sc = Keeps-on sc.object.sandbox sc

  Keeps-has_read :
      (sc : Scope host tester) (o : Option (StatusOr Text × SandboxWithOutputFds × Os))
      → ((r : StatusOr Text) (object : SandboxWithOutputFds) (os : Os)
          → o ≡ some (r, object, os)
          → os.closes d + owns d object ≡ sc.world.os.closes d + owns d sc.object)
      → KeptBy sc (has_read host tester sc o)
  Keeps-has_read sc none h = tt
  Keeps-has_read sc (some (r, object, os)) h = (refl, h r object os refl)

  Keeps-read_stdout : (absl : Absl) → Keeps (read_stdout host tester absl)
  unfolding read_stdout
  Keeps-read_stdout absl sc =
      Keeps-has_read sc (stdout absl sc.object sc.world.os)
        λ r object os e. stdout-closes absl d sc.object object sc.world.os os r e

  Keeps-read_stderr : (absl : Absl) → Keeps (read_stderr host tester absl)
  unfolding read_stderr
  Keeps-read_stderr absl sc =
      Keeps-has_read sc (stderr absl sc.object sc.world.os)
        λ r object os e. stderr-closes absl d sc.object object sc.world.os os r e

  Keeps-asks : {A : Type 0} (f : host.State → Option A) → Keeps (asks host tester f)
  Keeps-asks f sc = elim (Option-cases (f sc.world.state)) [
    | inl n ↦ rw n (refl, refl)
    | inr (a, n) ↦ rw n (refl, refl)
  ]

  Keeps-changes : (f : host.State → Option host.State) → Keeps (changes host tester f)
  Keeps-changes f sc = elim (Option-cases (f sc.world.state)) [
    | inl n ↦ rw n (refl, refl)
    | inr (a, n) ↦ rw n (refl, refl)
  ]

  Keeps-if :
      {A : Type 0} (b : Bool) (m k : Action host tester A)
      → Keeps m
      → Keeps k
      → Keeps (if b then m else k)
  Keeps-if true m k h g = h
  Keeps-if false m k h g = g

  Keeps-pure : {A : Type 0} (a : A) → Keeps (pure host tester a)
  Keeps-pure a sc = (refl, refl)

  Keeps-fail : (A : Type 0) (e : Error) → Keeps {A = A} (fail host tester e)
  Keeps-fail A e sc = (refl, refl)

  module _ (absl : Absl) (temp_path : Text) where
    Keeps-copy_only :
        (r : ExecutionResult) (ms : List Text) → Keeps (copy_only absl host tester temp_path r ms)
    unfolding copy_only
    Keeps-copy_only r [] sc = (refl, refl)
    Keeps-copy_only r (m ∷ []) sc =
        Keeps-changes (host.copy_file m (in_directory temp_path binary_file)) sc
    Keeps-copy_only r (m ∷ n ∷ ms) sc = (refl, refl)

    Keeps-find_binary : (r : ExecutionResult) → Keeps (find_binary absl host tester temp_path r)
    unfolding find_binary
    Keeps-find_binary r = Keeps->>= _ _ (Keeps-asks _) λ found.
        Keeps-if found _ _ (Keeps-pure tt) (Keeps->>= _ _ (Keeps-asks _) (Keeps-copy_only r))

    Keeps-with_hash : (r : ExecutionResult) → Keeps (with_hash absl host tester temp_path r)
    unfolding with_hash
    Keeps-with_hash r =
        Keeps->>= _ _ (Keeps-find_binary r)
          λ u. Keeps->>= _ _ (Keeps-asks _) λ hash sc. (refl, refl)

    Keeps-require_start : (b : Bool) → Keeps (require_start absl host tester b)
    Keeps-require_start true sc = (refl, refl)
    Keeps-require_start false sc = (refl, refl)

    Keeps-hash_if :
        (b : Bool) (r : ExecutionResult) → Keeps (hash_if absl host tester b temp_path r)
    unfolding hash_if
    Keeps-hash_if true r sc = Keeps-with_hash r sc
    Keeps-hash_if false r sc = (refl, refl)

    Keeps-run_compiler : Keeps (run_compiler absl host tester temp_path)
    unfolding run_compiler
    Keeps-run_compiler = Keeps->>= _ _ (Keeps-on_sandbox host.run_async) λ started.
        Keeps->>= _ _ (Keeps-require_start started) λ u.
          Keeps->>= _ _ (Keeps-on_sandbox host.await_result) λ result.
            Keeps->>= _ _ (Keeps-read_stdout absl)
              λ out. Keeps->>= _ _ (Keeps-read_stderr absl) λ problems. Keeps-hash_if _ _

  Balance-leave :
      {A : Type 0} (w : World (library host tester)) (sc : Scope host tester)
      (o : Option (Result A × Scope host tester)) (r : Result A) (w' : World (library host tester))
      → Balance (library host tester) d w sc.world (owns d sc.object)
      → KeptBy sc o
      → leave host tester o ≡ some (r, w')
      → Balance (library host tester) d w w' 0
  unfolding leave
  Balance-leave w sc none r w' b k e = absurd (cc)
  Balance-leave w sc (some (q, sc')) r w' b (same, kept) e =
      let destroyed = record sc'.world { os = destroy sc'.object sc'.world.os } in
      let there : destroyed ≡ w' = cc in
      subst (λ x. Balance (library host tester) d w x 0) there
        (rw same (omega (arith, b, kept, destroy-closes d sc'.object sc'.world.os)))

  -- Closed, or lost with an error of CreatePolicy.
  abbrev pub Ending :
      Paths
      → World (library host tester)
      → Result ExecutionResult × World (library host tester)
      → Type 0
  Ending paths w (r, w') =
      Balance (library host tester) d w w' 0
      ⊎ ((y : Error) × (r ≡ fails y) × Lost (library host tester) d y paths w w')

  Ending-compile_in :
      (absl : Absl) (temp_path : Text) (paths : Paths) (w : World (library host tester))
      (made : StatusOr SandboxWithOutputFds × World (library host tester))
      (r : Result ExecutionResult) (w' : World (library host tester))
      → Balanced (library host tester) d paths w made
      → compile_in absl host tester temp_path made ≡ some (r, w')
      → Ending paths w (r, w')
  unfolding compile_in
  Ending-compile_in absl temp_path paths w (ok s, w₁) r w' (inl (s', e', b)) e =
      let same : s' ≡ s = cc in
      let sc : Scope host tester = record { object = s; world = w₁ } in
      inl (
        Balance-leave w sc (run_compiler absl host tester temp_path sc) r w'
          (subst (λ x. Balance (library host tester) d w w₁ (owns d x)) same b)
          (Keeps-run_compiler absl temp_path sc) e)
  Ending-compile_in absl temp_path paths w (ok s, w₁) r w' (inr (y, e', b)) e = absurd (cc)
  Ending-compile_in absl temp_path paths w (err y, w₁) r w' (inl (s, e', b)) e = absurd (cc)
  Ending-compile_in absl temp_path paths w (err y, w₁) r w' (inr (y', e', inl b)) e =
      let same : w₁ ≡ w' = cc in inl (subst (λ x. Balance (library host tester) d w x 0) same b)
  Ending-compile_in absl temp_path paths w (err y, w₁) r w' (inr (y', e', inr lost)) e =
      let same : w₁ ≡ w' = cc in
      let failed : r ≡ fails y' = cc in
      inr (y', failed, subst (λ x. Lost (library host tester) d y' paths w x) same lost)

  -- Who closes what a compilation receives. Every descriptor that CompileCode received was closed
  -- exactly as often as it was received when it returns or throws, whatever its result is, except
  -- where CreatePolicy gave the error that is returned: then the two descriptors of the outputs were
  -- not closed.
  pub compile_code-balance :
      (absl : Absl) (code temp_path : Text) (max_compilation_duration : ℕ)
      (w w' : World (library host tester)) (r : Result ExecutionResult)
      → compile_code absl host tester code temp_path max_compilation_duration w ≡ some (r, w')
      → Ending (compilation tester temp_path).1 w (r, w')
  unfolding compile_code create_compilation_sandbox compilation
  compile_code-balance absl code temp_path max_compilation_duration w w' r e =
      Ending-compile_in absl temp_path (compilation tester temp_path).1 w _ r w'
        (create_sandbox_with_fds-balance (library host tester) d (compilation tester temp_path).0 []
          (compilation tester temp_path).1
          (record default_options { max_execution_duration = max_compilation_duration }) []
          host.environ
          (record w {
            state =
                host.write_file (in_directory temp_path code_file) (source_text tester code)
                  w.state;
          }))
        e
