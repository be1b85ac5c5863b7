-- ===== src/Python/Action.antt =====
-- How `PyTesterSandboxer::CompileCode` of execution/py_tester_sandboxer.cc runs once it has its
-- sandbox: every statement goes on with a value, returns an error, or throws; whichever it is, the
-- sandbox object is destroyed in the end.
use code_contests.Prelude.{ℕ, Option, none, some, Bool, Text}
use code_contests.Status.{StatusOr, Error, ok, err}
use code_contests.Absl.{Absl}
use code_contests.Sandbox.{Os, SandboxWithOutputFds, stdout, stderr, destroy}
use code_contests.Results.{SandboxResult}
use code_contests.Host.{Host}
use code_contests.Launch.{World}
use code_contests.Python.{PyTesterSandboxer}
use code_contests.Python.Calls.{library}

pub data Result (A : Type 0) : Type 0 where
  value : A → Result A
  fails : Error → Result A
  throws : Result A

-- `r.ok()` of a call whose result is returned.
abbrev result_of : {A : Type 0} → StatusOr A → Result A
result_of (ok a) = value a
result_of (err e) = fails e

module _ (host : Host) (tester : PyTesterSandboxer) where
  pub record Scope : Type 0 where
    pub object : SandboxWithOutputFds
    pub world : World (library host tester)

  -- `none`: a read of an output never returns, or the sandbox is a null pointer.
  abbrev pub Action : Type 0 → Type 0
  Action A = Scope → Option (Result A × Scope)

  abbrev pub with_state : Scope → host.State → Scope
  with_state sc state = record sc { world = record sc.world { state = state } }

  abbrev pub with_read : Scope → SandboxWithOutputFds → Os → Scope
  with_read sc object os = record { object = object; world = record sc.world { os = os } }

  module _ {A : Type 0} (call : ℕ → host.State → A × host.State) where
    abbrev pub on : Option ℕ → Action A
    on none sc = none
    on (some sandbox) sc =
        let (a, state) = call sandbox sc.world.state in some (value a, with_state sc state)

    -- A call of a method of the object's sandbox
    unfoldable pub on_sandbox : Action A
    on_sandbox sc = on sc.object.sandbox sc

  abbrev pub run_async : Action Bool
  run_async = on_sandbox host.run_async

  abbrev pub await_result : Action SandboxResult
  await_result = on_sandbox host.await_result

  abbrev pub has_read :
      Scope → Option (StatusOr Text × SandboxWithOutputFds × Os) → Option (Result Text × Scope)
  has_read sc none = none
  has_read sc (some (r, object, os)) = some (result_of r, with_read sc object os)

  -- ASSIGN_OR_RETURN of the two outputs
  unfoldable pub read_stdout : Absl → Action Text
  read_stdout absl sc = has_read sc (stdout absl sc.object sc.world.os)

  unfoldable pub read_stderr : Absl → Action Text
  read_stderr absl sc = has_read sc (stderr absl sc.object sc.world.os)

  module _ {A : Type 0} where
    abbrev pub pure : A → Action A
    pure a sc = some (value a, sc)

    abbrev pub fail : Error → Action A
    fail e sc = some (fails e, sc)

    -- A value that only the state of the system gives; `none` is an exception.
    abbrev pub or_throw : Option A → Action A
    or_throw none sc = some (throws, sc)
    or_throw (some a) sc = some (value a, sc)

    abbrev pub asks : (host.State → Option A) → Action A
    asks f sc = or_throw (f sc.world.state) sc

    unfoldable pub leave :
        Option (Result A × Scope) → Option (Result A × World (library host tester))
    leave none = none
    leave (some (r, sc)) = some (r, record sc.world { os = destroy sc.object sc.world.os })

  -- A change of the system's state; `none` is an exception, which leaves it as it was.
  abbrev pub updated : Scope → Option host.State → Option (Result (Unit {0}) × Scope)
  updated sc none = some (throws, sc)
  updated sc (some state) = some (value tt, with_state sc state)

  abbrev pub changes : (host.State → Option host.State) → Action (Unit {0})
  changes f sc = updated sc (f sc.world.state)

module _ {host : Host} {tester : PyTesterSandboxer} where
  module _ {A B : Type 0} (k : A → Action host tester B) where
    abbrev pub go_on : Option (Result A × Scope host tester) → Option (Result B × Scope host tester)
    go_on none = none
    go_on (some (value a, sc)) = k a sc
    go_on (some (fails e, sc)) = some (fails e, sc)
    go_on (some (throws, sc)) = some (throws, sc)

  infixl 5 ◌>>=◌ ◌>>◌
  unfoldable pub ◌>>=◌ :
      {A B : Type 0} → Action host tester A → (A → Action host tester B) → Action host tester B
  (m >>= k) sc = go_on k (m sc)

  abbrev pub ◌>>◌ :
      {A B : Type 0} → Action host tester A → Action host tester B → Action host tester B
  m >> k = m >>= λ _. k
