-- ===== src/Python/Failing.antt =====
-- Why CompileCode returns an error.
use code_contests.Prelude.{
  arith, ℕ, ◌≡◌, refl, sym, ap, ◌∙◌, subst, Bool, true, false, Option, none, some, List, [], ◌∷◌,
  Text, if◌then◌else◌,
}
use code_contests.Status.{StatusOr, Error, ok, err}
use code_contests.Absl.{Absl}
use code_contests.Sandbox.{SandboxWithOutputFds}
use code_contests.Results.{ExecutionResult, SandboxResult, is_success}
use code_contests.Host.{Host}
use code_contests.Launch.{World}
use code_contests.Python.{PyTesterSandboxer, in_directory, code_file, binary_file, source_text}
use code_contests.Python.Calls.{library, create_compilation_sandbox}
use code_contests.Python.Action.{
  Result, value, fails, throws, Scope, on, on_sandbox, read_stdout, read_stderr, pure, asks, leave,
  ◌>>=◌,
}
use code_contests.Python.Compile.{
  pycache, require_start, copy_only, find_binary, with_hash, hash_if, result_with, run_compiler,
  compile_in, compile_code,
}
use code_contests.Python.Blaming.{
  Blames, Blames->>=, Blames-or_throw, Blames-updated, Blames-on_sandbox, Blames-has_read,
}
use code_contests.Python.Compiled.{Gives-require_start}
use code_contests.Python.Giving.{
  Answered-on_sandbox, Obtained-read_stdout, Obtained-read_stderr, Gives-or_throw,
}
use code_contests.Python.Causes.{Ran, Cause, start, bad_stdout, bad_stderr, no_file}

module _ (absl : Absl) (host : Host) (tester : PyTesterSandboxer) (temp_path : Text) where
  module _ (s : SandboxWithOutputFds) (w : World (library host tester)) where
    abbrev C : Error → Type 0
    C = Cause absl host tester temp_path s w

    Blames-copy_only :
        (r : ExecutionResult) (ms : List Text) (state : host.State) (sc : Scope host tester)
        → Ran absl host tester temp_path s w r state
        → is_success r.program_status ≡ true
        → host.exists (in_directory temp_path binary_file) state ≡ some false
        → host.entries (pycache temp_path) state ≡ some ms
        → Blames host tester C (copy_only absl host tester temp_path r ms sc)
    unfolding copy_only
    Blames-copy_only r [] state sc ran good gone found =
        no_file r _ state ran good gone found (λ e. omega (arith, e))
    Blames-copy_only r (m ∷ []) state sc ran good gone found = Blames-updated host tester C sc _
    Blames-copy_only r (m ∷ n ∷ ms) state sc ran good gone found =
        no_file r _ state ran good gone found (λ e. omega (arith, e))

    Blames-otherwise :
        (found : Bool) (r : ExecutionResult) (sc : Scope host tester)
        → Ran absl host tester temp_path s w r sc.world.state
        → is_success r.program_status ≡ true
        → host.exists (in_directory temp_path binary_file) sc.world.state ≡ some found
        → Blames host tester C (
            (if found
                then pure host tester tt
                else (asks host tester (host.entries (pycache temp_path))
                    >>= copy_only absl host tester temp_path r))
              sc)
    Blames-otherwise true r sc ran good there = tt
    Blames-otherwise false r sc ran good gone =
        Blames->>= host tester C _ _ sc (Blames-or_throw host tester C _ sc) λ ms mid p.
          let (found, same) = Gives-or_throw host tester _ sc p in
          Blames-copy_only r ms sc.world.state mid ran good gone found

    Blames-find_binary :
        (r : ExecutionResult) (sc : Scope host tester)
        → Ran absl host tester temp_path s w r sc.world.state
        → is_success r.program_status ≡ true
        → Blames host tester C (find_binary absl host tester temp_path r sc)
    unfolding find_binary
    Blames-find_binary r sc ran good =
        Blames->>= host tester C _ _ sc (Blames-or_throw host tester C _ sc) λ found mid p.
          let (is, same) =
            Gives-or_throw host tester
              (host.exists (in_directory temp_path binary_file) sc.world.state) sc p in
          Blames-otherwise found r mid
            (subst (λ (y : Scope host tester). Ran absl host tester temp_path s w r y.world.state)
              same ran)
            good
            (ap
                (λ (y : Scope host tester).
                  host.exists (in_directory temp_path binary_file) y.world.state)
                (sym same)
              ∙ is)

    Blames-hash_if :
        (b : Bool) (r : ExecutionResult) (sc : Scope host tester)
        → Ran absl host tester temp_path s w r sc.world.state
        → is_success r.program_status ≡ b
        → Blames host tester C (hash_if absl host tester b temp_path r sc)
    unfolding hash_if with_hash
    Blames-hash_if true r sc ran good =
        Blames->>= host tester C _ _ sc (Blames-find_binary r sc ran good) λ u mid p.
          Blames->>= host tester C _ _ mid (Blames-or_throw host tester C _ mid) λ hash after q. tt
    Blames-hash_if false r sc ran bad = tt

    Blames-require_start :
        (b : Bool) (n : ℕ) (sc : Scope host tester)
        → s.sandbox ≡ some n
        → (host.run_async n w.state).0 ≡ b
        → Blames host tester C (require_start absl host tester b sc)
    Blames-require_start true n sc is ran = tt
    Blames-require_start false n sc is ran = start n is ran

    -- The object and the descriptors are still those from before.
    abbrev Untouched : Scope host tester → Type 0
    Untouched sc = (sc.object ≡ s) × (sc.world.os ≡ w.os)

    -- The sandbox was run, and awaited with this result.
    abbrev Awaited : SandboxResult → Scope host tester → Type 0
    Awaited result sc =
        (n : ℕ) × (s.sandbox ≡ some n)
        × ((host.run_async n w.state).0 ≡ true)
        × ((host.await_result n (host.run_async n w.state).1).0 ≡ result)
        × ((host.await_result n (host.run_async n w.state).1).1 ≡ sc.world.state)

    Blames-outputs :
        (result : SandboxResult) (sc : Scope host tester)
        → Untouched sc
        → Awaited result sc
        → Blames host tester C (
            (read_stdout host tester absl >>= λ out. read_stderr host tester absl >>= λ problems.
            hash_if absl host tester
              (is_success (result_with absl host tester result out problems).program_status)
              temp_path
              (result_with absl host tester result out problems))
              sc)
    unfolding read_stdout read_stderr
    Blames-outputs result sc (object_is, os_is) (n, n_is, on, result_is, state_was) =
        Blames->>= host tester C (read_stdout host tester absl) _ sc
          (Blames-has_read host tester C sc _ λ e object os h. bad_stdout e object os (cc))
          λ out mid p.
            let (read, state_is) = Obtained-read_stdout host tester absl sc p in
            Blames->>= host tester C (read_stderr host tester absl) _ mid
              (Blames-has_read host tester C mid _
                λ e object os h. bad_stderr e out mid.object object mid.world.os os (cc) h)
              λ problems after q.
                let (read', state_is') = Obtained-read_stderr host tester absl mid q in
                Blames-hash_if _ _ after
                  (
                    n,
                    out,
                    problems,
                    mid.object,
                    mid.world.os,
                    after.object,
                    after.world.os,
                    n_is,
                    on,
                    cc,
                    read',
                    ap (λ t. result_with absl host tester t out problems) result_is,
                    state_was ∙ sym state_is ∙ sym state_is',
                  )
                  refl

    Blames-run_compiler :
        Blames host tester C
          (run_compiler absl host tester temp_path (record { object = s; world = w }))
    unfolding run_compiler
    Blames-run_compiler =
        Blames->>= host tester C (on_sandbox host tester host.run_async) _ _
          (Blames-on_sandbox host tester C _ _)
          λ started sc₁ p₁.
            let (n, n_is, ran, at₁) = Answered-on_sandbox host tester host.run_async _ p₁ in
            Blames->>= host tester C (require_start absl host tester started) _ sc₁
              (Blames-require_start started n sc₁ n_is ran)
              λ u sc₂ p₂.
                let (on, at₂) = Gives-require_start host tester absl temp_path started sc₁ p₂ in
                Blames->>= host tester C (on_sandbox host tester host.await_result) _ sc₂
                  (Blames-on_sandbox host tester C _ sc₂)
                  λ result sc₃ p₃.
                    let (m, m_is, awaited, at₃) =
                      Answered-on_sandbox host tester host.await_result sc₂ p₃ in
                    let object_is = ap (λ (y : Scope host tester). y.object) (at₁ ∙ at₂) in
                    let state_is = ap (λ (y : Scope host tester). y.world.state) (at₁ ∙ at₂) in
                    let m_here : s.sandbox ≡ some m =
                      ap (λ (y : SandboxWithOutputFds). y.sandbox) object_is ∙ m_is in
                    let same : n ≡ m = cc in
                    let state_m : (host.run_async m w.state).1 ≡ sc₂.world.state =
                      subst (λ k. (host.run_async k w.state).1 ≡ sc₂.world.state) same state_is in
                    Blames-outputs result sc₃
                      (
                        sym (object_is ∙ ap (λ (y : Scope host tester). y.object) at₃),
                        sym (
                            ap (λ (y : Scope host tester). y.world.os) (at₁ ∙ at₂)
                            ∙ ap (λ (y : Scope host tester). y.world.os) at₃),
                      )
                      (
                        m,
                        m_here,
                        subst (λ k. (host.run_async k w.state).0 ≡ true) same (ran ∙ on),
                        ap (λ z. (host.await_result m z).0) state_m ∙ awaited,
                        ap (λ z. (host.await_result m z).1) state_m
                            ∙ ap (λ (y : Scope host tester). y.world.state) at₃,
                      )

    Blames-leave :
        {A : Type 0} (o : Option (Result A × Scope host tester)) {e : Error}
        {w' : World (library host tester)}
        → Blames host tester C o
        → leave host tester o ≡ some (fails e, w')
        → C e
    unfolding leave
    Blames-leave none h k = absurd (cc)
    Blames-leave (some (value a, sc)) h k = absurd (cc)
    Blames-leave (some (fails x, sc)) {e} h k = let same : x ≡ e = cc in subst C same h
    Blames-leave (some (throws, sc)) h k = absurd (cc)

  -- An error of the creation, or one with a cause behind it.
  abbrev pub Failed : StatusOr SandboxWithOutputFds × World (library host tester) → Error → Type 0
  Failed (err x, w) e = x ≡ e
  Failed (ok s, w) e = Cause absl host tester temp_path s w e

  Failed-compile_in :
      (made : StatusOr SandboxWithOutputFds × World (library host tester)) {e : Error}
      {w' : World (library host tester)}
      → compile_in absl host tester temp_path made ≡ some (fails e, w')
      → Failed made e
  unfolding compile_in
  Failed-compile_in (err x, w) h = cc
  Failed-compile_in (ok s, w) h = Blames-leave s w _ (Blames-run_compiler s w) h

  -- Why CompileCode returns an error. It is the error of CreateSandboxWithFds; or, with a sandbox made,
  -- the sandbox did not start; or reading its standard output, or then its standard error, gave this
  -- very error; or the sandbox ran, both outputs were read, its result was a success, and in the state
  -- after it the binary file was missing and __pycache__ had no file or several.
  pub compile_code-Failed :
      (code : Text) (max_compilation_duration : ℕ) (w w' : World (library host tester)) (e : Error)
      → compile_code absl host tester code temp_path max_compilation_duration w ≡ some (fails e, w')
      → Failed
          (create_compilation_sandbox host tester max_compilation_duration temp_path (record w {
            state =
                host.write_file
                  (in_directory temp_path code_file)
                  (source_text tester code)
                  w.state;
          }))
          e
  unfolding compile_code
  compile_code-Failed code max_compilation_duration w w' e h = Failed-compile_in _ h
