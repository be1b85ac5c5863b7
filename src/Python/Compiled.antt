-- ===== src/Python/Compiled.antt =====
-- What a result of CompileCode stands for.
use code_contests.Prelude.{ℕ, ◌≡◌, refl, sym, ◌∙◌, ap, subst, Bool, true, false, some, Text}
use code_contests.Status.{StatusOr, ok, err}
use code_contests.Absl.{Absl}
use code_contests.Sandbox.{Os, SandboxWithOutputFds, stdout, stderr}
use code_contests.Results.{ExecutionResult, SandboxResult, is_success, from_compilation}
use code_contests.Host.{Host}
use code_contests.Launch.{World}
use code_contests.Python.{PyTesterSandboxer, in_directory, code_file, source_text}
use code_contests.Python.Calls.{library, create_compilation_sandbox}
use code_contests.Python.Action.{
  value, Scope, read_stdout, read_stderr, asks, on, on_sandbox, ◌>>=◌,
}
use code_contests.Python.Compile.{
  require_start, hash_in, hash_if, with_hash, run_compiler, compile_in, compile_code, result_with,
}
use code_contests.Python.Giving.{
  Gives, by_bind, Gives-leave, Answered-on_sandbox, Obtained-read_stdout, Obtained-read_stderr,
  Gives-or_throw,
}

module _ (host : Host) (tester : PyTesterSandboxer) where
  module _ (absl : Absl) (temp_path : Text) where
    -- The hash of a result, by whether the compilation succeeded.
    abbrev pub HashOf : Bool → host.State → ℕ → Type 0
    HashOf true state hash = hash_in absl host tester temp_path state ≡ some hash
    HashOf false state hash = hash ≡ 0

    Gives-with_hash :
        (r : ExecutionResult) (sc : Scope host tester) {x : ExecutionResult}
        {sc' : Scope host tester}
        → Gives host tester (with_hash absl host tester temp_path r sc) x sc'
        → (record r { program_hash = x.program_hash } ≡ x)
          × HashOf true sc'.world.state x.program_hash
    unfolding with_hash
    Gives-with_hash r sc {x} {sc'} e = by_bind host tester _ _ sc e λ u sc₁ found e₁.
        by_bind host tester (asks host tester (hash_in absl host tester temp_path)) _ sc₁ e₁
          λ hash sc₂ asked e₂.
            let (here, same) =
              Gives-or_throw host tester (hash_in absl host tester temp_path sc₁.world.state) sc₁
                asked in
            let x_is : record r { program_hash = hash } ≡ x = cc in
            let there : sc₂ ≡ sc' = cc in
            let state_is : sc₁.world.state ≡ sc'.world.state =
              ap (λ (y : Scope host tester). y.world.state) (same ∙ there) in
            let hash_is : hash ≡ x.program_hash =
              ap (λ (y : ExecutionResult). y.program_hash) x_is in
            (
              ap (λ h. record r { program_hash = h }) (sym hash_is) ∙ x_is,
              ap (hash_in absl host tester temp_path) (sym state_is) ∙ here ∙ ap some hash_is,
            )

    Gives-hash_if :
        (b : Bool) (r : ExecutionResult) (sc : Scope host tester) {x : ExecutionResult}
        {sc' : Scope host tester}
        → r.program_hash ≡ 0
        → Gives host tester (hash_if absl host tester b temp_path r sc) x sc'
        → (record r { program_hash = x.program_hash } ≡ x) × HashOf b sc'.world.state x.program_hash
    unfolding hash_if
    Gives-hash_if true r sc z e = Gives-with_hash r sc e
    Gives-hash_if false r sc {x} z e =
        let same : r ≡ x = cc in
        let hash_is = ap (λ (y : ExecutionResult). y.program_hash) same in
        (ap (λ h. record r { program_hash = h }) (sym hash_is) ∙ same, sym hash_is ∙ z)

    pub Gives-require_start :
        (b : Bool) (sc : Scope host tester) {u : Unit {0}} {sc' : Scope host tester}
        → Gives host tester (require_start absl host tester b sc) u sc'
        → (b ≡ true) × (sc ≡ sc')
    Gives-require_start true sc e = (refl, cc)
    Gives-require_start false sc e = absurd (cc)

    -- The sandbox `s` was run in the world `w`, and this came of it.
    pub record Compiled (s : SandboxWithOutputFds) (w : World (library host tester))
        (x : ExecutionResult) (state : host.State) : Type 0 where
      pub sandbox : ℕ
      pub is_sandbox : s.sandbox ≡ some sandbox
      pub has_started : (host.run_async sandbox w.state).0 ≡ true
      pub object_out : SandboxWithOutputFds
      pub os_out : Os
      pub reads_stdout : stdout absl s w.os ≡ some (ok x.stdout, object_out, os_out)
      pub object_err : SandboxWithOutputFds
      pub os_err : Os
      pub reads_stderr : stderr absl object_out os_out ≡ some (ok x.stderr, object_err, os_err)
      pub is_result :
          record (result_with absl host tester
            (host.await_result sandbox (host.run_async sandbox w.state).1).0
            x.stdout
            x.stderr) { program_hash = x.program_hash }
          ≡ x
      pub is_hash : HashOf (is_success x.program_status) state x.program_hash

    -- The outputs and the hash, from the scope after the sandbox was awaited.
    Gives-outputs :
        (result : SandboxResult) (sc : Scope host tester) {x : ExecutionResult}
        {sc' : Scope host tester}
        → Gives host tester
            ((read_stdout host tester absl >>= λ out. read_stderr host tester absl >>= λ problems.
                hash_if absl host tester
                  (is_success (result_with absl host tester result out problems).program_status)
                  temp_path
                  (result_with absl host tester result out problems))
              sc)
            x
            sc'
        → (object_out : SandboxWithOutputFds) × (os_out : Os) × (stdout absl sc.object sc.world.os
            ≡ some (ok x.stdout, object_out, os_out))
          × (object_err : SandboxWithOutputFds) × (os_err : Os) × (stderr absl object_out os_out
              ≡ some (ok x.stderr, object_err, os_err))
          × (record (result_with absl host tester result x.stdout x.stderr) {
            program_hash = x.program_hash;
          }
              ≡ x)
          × HashOf (is_success x.program_status) sc'.world.state x.program_hash
    unfolding from_compilation
    Gives-outputs result sc {x} {sc'} e =
        by_bind host tester (read_stdout host tester absl) _ sc e λ out sc₁ p₁ e₁.
          by_bind host tester (read_stderr host tester absl) _ sc₁ e₁ λ problems sc₂ p₂ e₂.
            let (read_out, state₁) = Obtained-read_stdout host tester absl sc p₁ in
            let (read_err, state₂) = Obtained-read_stderr host tester absl sc₁ p₂ in
            let r = result_with absl host tester result out problems in
            let (x_is, hash_is) = Gives-hash_if (is_success r.program_status) r sc₂ refl e₂ in
            let out_is : out ≡ x.stdout = ap (λ (y : ExecutionResult). y.stdout) x_is in
            let err_is : problems ≡ x.stderr = ap (λ (y : ExecutionResult). y.stderr) x_is in
            let status_is : r.program_status ≡ x.program_status =
              ap (λ (y : ExecutionResult). y.program_status) x_is in
            (
              sc₁.object,
              sc₁.world.os,
              read_out ∙ ap (λ t. some (ok t, sc₁.object, sc₁.world.os)) out_is,
              sc₂.object,
              sc₂.world.os,
              read_err ∙ ap (λ t. some (ok t, sc₂.object, sc₂.world.os)) err_is,
              subst
                  (λ t.
                    record (result_with absl host tester result t x.stderr) {
                      program_hash = x.program_hash;
                    }
                    ≡ x)
                  out_is
                  (subst
                    (λ t.
                      record (result_with absl host tester result out t) {
                        program_hash = x.program_hash;
                      }
                      ≡ x)
                    err_is x_is),
              subst (λ b. HashOf (is_success b) sc'.world.state x.program_hash) status_is hash_is,
            )

    Compiled-run_compiler :
        (s : SandboxWithOutputFds) (w : World (library host tester)) {x : ExecutionResult}
        {sc' : Scope host tester}
        → Gives host tester
            (run_compiler absl host tester temp_path (record { object = s; world = w }))
            x
            sc'
        → Compiled s w x sc'.world.state
    unfolding run_compiler
    Compiled-run_compiler s w {x} {sc'} e =
        by_bind host tester (on_sandbox host tester host.run_async) _ _ e λ started sc₁ p₁ e₁.
          by_bind host tester (require_start absl host tester started) _ sc₁ e₁ λ u sc₂ p₂ e₂.
            by_bind host tester (on_sandbox host tester host.await_result) _ sc₂ e₂
              λ result sc₃ p₃ e₃.
                let (n, n_is, ran, at₁) = Answered-on_sandbox host tester host.run_async _ p₁ in
                let (on, at₂) = Gives-require_start started sc₁ p₂ in
                let (m, m_is, awaited, at₃) =
                  Answered-on_sandbox host tester host.await_result sc₂ p₃ in
                let (object_out, os_out, read_out, object_err, os_err, read_err, x_is, hash_is) =
                  Gives-outputs result sc₃ e₃ in
                let object₂ = ap (λ (y : Scope host tester). y.object) (at₁ ∙ at₂) in
                let os₂ = ap (λ (y : Scope host tester). y.world.os) (at₁ ∙ at₂) in
                let state₂ = ap (λ (y : Scope host tester). y.world.state) (at₁ ∙ at₂) in
                let object₃ = ap (λ (y : Scope host tester). y.object) at₃ in
                let os₃ = ap (λ (y : Scope host tester). y.world.os) at₃ in
                let same : n ≡ m = cc in
                let result_is : (host.await_result n (host.run_async n w.state).1).0 ≡ result =
                  cc in
                record {
                  sandbox = n;
                  is_sandbox = n_is;
                  has_started = ran ∙ on;
                  object_out = object_out;
                  os_out = os_out;
                  reads_stdout = cc;
                  object_err = object_err;
                  os_err = os_err;
                  reads_stderr = read_err;
                  is_result = rw result_is x_is;
                  is_hash = hash_is;
                }

    Compiled-compile_in :
        (made : StatusOr SandboxWithOutputFds × World (library host tester)) {x : ExecutionResult}
        {w' : World (library host tester)}
        → compile_in absl host tester temp_path made ≡ some (value x, w')
        → (s : SandboxWithOutputFds) × (made.0 ≡ ok s) × Compiled s made.1 x w'.state
    unfolding compile_in
    Compiled-compile_in (err y, w) e = absurd (cc)
    Compiled-compile_in (ok s, w) {x} {w'} e =
        let (sc, gave, state_is) =
          Gives-leave host tester
            (run_compiler absl host tester temp_path (record { object = s; world = w })) e in
        (s, refl, subst (Compiled s w x) (sym state_is) (Compiled-run_compiler s w gave))

    -- What a result of CompileCode stands for. The source file was written and a sandbox made, which
    -- was started; the status and the text of the result are those for what this sandbox ended with,
    -- and its outputs are what was read of the sandbox; if it succeeded, the hash is the one of the
    -- binary file as it is when CompileCode returns, and otherwise it is 0.
    pub compile_code-Compiled :
        (code : Text) (max_compilation_duration : ℕ) (w w' : World (library host tester))
        (x : ExecutionResult)
        → compile_code absl host tester code temp_path max_compilation_duration w
          ≡ some (value x, w')
        → let (r, before) =
            create_compilation_sandbox host tester max_compilation_duration temp_path (record w {
              state =
                  host.write_file
                    (in_directory temp_path code_file)
                    (source_text tester code)
                    w.state;
            }) in
          (s : SandboxWithOutputFds) × (r ≡ ok s) × Compiled s before x w'.state
    unfolding compile_code
    compile_code-Compiled code max_compilation_duration w w' x e = Compiled-compile_in _ e
