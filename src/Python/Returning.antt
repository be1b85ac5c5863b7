-- ===== src/Python/Returning.antt =====
-- When CompileCode returns or throws.
use code_contests.Prelude.{
  ℕ, ◌≡◌, refl, sym, subst, Bool, true, false, Option, none, some, List, [], ◌∷◌, Text,
  if◌then◌else◌,
}
use code_contests.Status.{StatusOr, ok, err}
use code_contests.Absl.{Absl}
use code_contests.Sandbox.{Os, SandboxWithOutputFds}
use code_contests.Sandbox.Ending.{Readable, Ends, stdout-Readable, stderr-Ends}
use code_contests.Results.{ExecutionResult}
use code_contests.Host.{Host}
use code_contests.Launch.{World}
use code_contests.Python.{PyTesterSandboxer}
use code_contests.Python.Calls.{library, create_compilation_sandbox}
use code_contests.Python.Confinement.{create_compilation_sandbox-Jailed}
use code_contests.Python.Action.{
  Result, value, fails, throws, Scope, Action, on, on_sandbox, read_stdout, read_stderr, has_read,
  updated, or_throw, leave, go_on, with_read, ◌>>=◌,
}
use code_contests.Python.Compile.{
  require_start, copy_only, find_binary, with_hash, hash_if, run_compiler, compile_in, compile_code,
}

module _ (host : Host) (tester : PyTesterSandboxer) where
  -- There is an outcome, and the scope of a value satisfies `P`.
  abbrev Total :
      {A : Type 0} → (Scope host tester → Type 0) → Option (Result A × Scope host tester) → Type 0
  Total P none = ⊥
  Total P (some (value a, sc)) = P sc
  Total P (some (fails e, sc)) = Unit
  Total P (some (throws, sc)) = Unit

  Total-go_on :
      {A B : Type 0} (P Q : Scope host tester → Type 0) (k : A → Action host tester B)
      (o : Option (Result A × Scope host tester))
      → Total P o
      → ((a : A) (sc : Scope host tester) → P sc → Total Q (k a sc))
      → Total Q (go_on k o)
  Total-go_on P Q k none h f = h
  Total-go_on P Q k (some (value a, sc)) h f = f a sc h
  Total-go_on P Q k (some (fails e, sc)) h f = tt
  Total-go_on P Q k (some (throws, sc)) h f = tt

  Total->>= :
      {A B : Type 0} (P Q : Scope host tester → Type 0) (m : Action host tester A)
      (k : A → Action host tester B) (sc : Scope host tester)
      → Total P (m sc)
      → ((a : A) (sc' : Scope host tester) → P sc' → Total Q (k a sc'))
      → Total Q ((m >>= k) sc)
  unfolding ◌>>=◌
  Total->>= P Q m k sc h f = Total-go_on P Q k (m sc) h f

  abbrev Anything : Scope host tester → Type 0
  Anything sc = Unit

  Total-if :
      {A : Type 0} (P : Scope host tester → Type 0) (b : Bool) (m k : Action host tester A)
      (sc : Scope host tester)
      → Total P (m sc)
      → Total P (k sc)
      → Total P ((if b then m else k) sc)
  Total-if P true m k sc h g = h
  Total-if P false m k sc h g = g

  Total-or_throw :
      {A : Type 0} (o : Option A) (sc : Scope host tester)
      → Total Anything (or_throw host tester o sc)
  Total-or_throw none sc = tt
  Total-or_throw (some a) sc = tt

  Total-updated :
      (sc : Scope host tester) (o : Option host.State) → Total Anything (updated host tester sc o)
  Total-updated sc none = tt
  Total-updated sc (some state) = tt

  module _ (absl : Absl) (temp_path : Text) where
    Total-copy_only :
        (r : ExecutionResult) (ms : List Text) (sc : Scope host tester)
        → Total Anything (copy_only absl host tester temp_path r ms sc)
    unfolding copy_only
    Total-copy_only r [] sc = tt
    Total-copy_only r (m ∷ []) sc = Total-updated sc _
    Total-copy_only r (m ∷ n ∷ ms) sc = tt

    Total-find_binary :
        (r : ExecutionResult) (sc : Scope host tester)
        → Total Anything (find_binary absl host tester temp_path r sc)
    unfolding find_binary
    Total-find_binary r sc = Total->>= Anything Anything _ _ sc (Total-or_throw _ sc) λ found sc₁ u.
        Total-if Anything found _ _ sc₁ tt (
          Total->>= Anything Anything _ _ sc₁ (Total-or_throw _ sc₁)
            λ ms sc₂ v. Total-copy_only r ms sc₂)

    Total-hash_if :
        (b : Bool) (r : ExecutionResult) (sc : Scope host tester)
        → Total Anything (hash_if absl host tester b temp_path r sc)
    unfolding hash_if with_hash
    Total-hash_if true r sc =
        Total->>= Anything Anything _ _ sc (Total-find_binary r sc)
          λ u sc₁ v. Total->>= Anything Anything _ _ sc₁ (Total-or_throw _ sc₁) λ hash sc₂ t. tt
    Total-hash_if false r sc = tt

    Total-require_start :
        (P : Scope host tester → Type 0) (b : Bool) (sc : Scope host tester)
        → P sc
        → Total P (require_start absl host tester b sc)
    Total-require_start P true sc h = h
    Total-require_start P false sc h = tt

    -- There is a sandbox, and its outputs can be read.
    abbrev Prepared : Scope host tester → Type 0
    Prepared sc = ((n : ℕ) × (sc.object.sandbox ≡ some n)) × Readable absl sc.object sc.world.os

    Total-on :
        {A : Type 0} (call : ℕ → host.State → A × host.State) (o : Option ℕ)
        (sc : Scope host tester)
        → (n : ℕ) × (o ≡ some n)
        → Prepared sc
        → Total Prepared (on host tester call o sc)
    Total-on call none sc (n, e) p = absurd (cc)
    Total-on call (some m) sc e p = p

    Total-on_sandbox :
        {A : Type 0} (call : ℕ → host.State → A × host.State) (sc : Scope host tester)
        → Prepared sc
        → Total Prepared (on_sandbox host tester call sc)
    unfolding on_sandbox
    Total-on_sandbox call sc (e, p) = Total-on call sc.object.sandbox sc e (e, p)

    Total-has_read :
        (P : Scope host tester → Type 0) (sc : Scope host tester) (r : StatusOr Text)
        (object : SandboxWithOutputFds) (os : Os)
        → P (with_read host tester sc object os)
        → Total P (has_read host tester sc (some (r, object, os)))
    Total-has_read P sc (ok text) object os h = h
    Total-has_read P sc (err e) object os h = tt

    abbrev ErrLeft : Scope host tester → Type 0
    ErrLeft sc = Ends absl sc.world.os sc.object.stderr_fd

    Total-read_stdout :
        (sc : Scope host tester) → Prepared sc → Total ErrLeft (read_stdout host tester absl sc)
    unfolding read_stdout
    Total-read_stdout sc (e, p) =
        let (r, object, os, read, left) = stdout-Readable absl sc.object sc.world.os p in
        subst (λ o. Total ErrLeft (has_read host tester sc o)) (sym read)
          (Total-has_read ErrLeft sc r object os left)

    Total-read_stderr :
        (sc : Scope host tester) → ErrLeft sc → Total Anything (read_stderr host tester absl sc)
    unfolding read_stderr
    Total-read_stderr sc left =
        let (r, object, os, read) = stderr-Ends absl sc.object sc.world.os left in
        subst (λ o. Total Anything (has_read host tester sc o)) (sym read)
          (Total-has_read Anything sc r object os tt)

    Total-run_compiler :
        (sc : Scope host tester)
        → Prepared sc
        → Total Anything (run_compiler absl host tester temp_path sc)
    unfolding run_compiler
    Total-run_compiler sc p =
        Total->>= Prepared Anything _ _ sc (Total-on_sandbox host.run_async sc p) λ started sc₁ p₁.
          Total->>= Prepared Anything _ _ sc₁ (Total-require_start Prepared started sc₁ p₁)
            λ u sc₂ p₂.
              Total->>= Prepared Anything _ _ sc₂ (Total-on_sandbox host.await_result sc₂ p₂)
                λ result sc₃ p₃.
                  Total->>= ErrLeft Anything _ _ sc₃ (Total-read_stdout sc₃ p₃) λ out sc₄ p₄.
                    Total->>= Anything Anything _ _ sc₄ (Total-read_stderr sc₄ p₄)
                      λ problems sc₅ p₅. Total-hash_if _ _ sc₅

    Total-leave :
        {A : Type 0} (o : Option (Result A × Scope host tester))
        → Total Anything o
        → (r : Result A) × (w : World (library host tester)) × (leave host tester o ≡ some (r, w))
    unfolding leave
    Total-leave none h = absurd h
    Total-leave (some (r, sc)) h = (r, _, refl)

    compile_in-Returns :
        (made : StatusOr SandboxWithOutputFds × World (library host tester))
        → ((s : SandboxWithOutputFds)
            → made.0 ≡ ok s
            → Prepared (record { object = s; world = made.1 }))
        → (r : Result ExecutionResult) × (w' : World (library host tester)) × (compile_in absl host
              tester temp_path made
            ≡ some (r, w'))
    unfolding compile_in
    compile_in-Returns (err e, w) h = (fails e, w, refl)
    compile_in-Returns (ok s, w) h = Total-leave _ (Total-run_compiler _ (h s refl))

    -- CompileCode returns or throws, whatever the sandbox, the file system and the compiler do, if
    -- the outputs of every sandbox that can be made for it have descriptors of their own and reads
    -- that end.
    pub compile_code-Returns :
        (code : Text) (max_compilation_duration : ℕ) (w : World (library host tester))
        → ((s : SandboxWithOutputFds) (state : host.State)
            → (create_compilation_sandbox host tester max_compilation_duration temp_path
                (record w { state = state })).0
              ≡ ok s
            → Readable absl s
                (create_compilation_sandbox host tester max_compilation_duration temp_path
                  (record w { state = state })).1.os)
        → (r : Result ExecutionResult) × (w' : World (library host tester)) × (compile_code absl
              host tester code temp_path max_compilation_duration w
            ≡ some (r, w'))
    unfolding compile_code
    compile_code-Returns code max_compilation_duration w h = compile_in-Returns _ λ s e. (
      let (x, paths, policy, before, c, b, a, same) =
            create_compilation_sandbox-Jailed host tester max_compilation_duration temp_path _ s
              e in
          (_, same),
      h s _ e,
    )
