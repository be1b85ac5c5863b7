-- ===== src/Python/Giving.antt =====
-- What follows from the value that an action gave.
use code_contests.Prelude.{ℕ, ◌≡◌, refl, Option, none, some, Text}
use code_contests.Status.{StatusOr, ok, err}
use code_contests.Absl.{Absl}
use code_contests.Sandbox.{Os, SandboxWithOutputFds, stdout, stderr}
use code_contests.Host.{Host}
use code_contests.Launch.{World}
use code_contests.Python.{PyTesterSandboxer}
use code_contests.Python.Calls.{library}
use code_contests.Python.Action.{
  Result, value, fails, throws, Scope, Action, read_stdout, read_stderr, has_read, or_throw, on,
  on_sandbox, leave, go_on, with_state, ◌>>=◌,
}

module _ (host : Host) (tester : PyTesterSandboxer) where
  -- An action ends with a value in a scope.
  abbrev pub Gives :
      {A : Type 0} → Option (Result A × Scope host tester) → A → Scope host tester → Type 0
  Gives o a sc = o ≡ some (value a, sc)

  Gives-go_on :
      {A B : Type 0} (k : A → Action host tester B) (o : Option (Result A × Scope host tester))
      {b : B} {sc : Scope host tester}
      → Gives (go_on k o) b sc
      → (a : A) × (mid : Scope host tester) × Gives o a mid × Gives (k a mid) b sc
  Gives-go_on k none e = absurd (cc)
  Gives-go_on k (some (value a, mid)) e = (a, mid, refl, e)
  Gives-go_on k (some (fails x, mid)) e = absurd (cc)
  Gives-go_on k (some (throws, mid)) e = absurd (cc)

  Gives->>= :
      {A B : Type 0} (m : Action host tester A) (k : A → Action host tester B)
      (sc : Scope host tester) {b : B} {sc' : Scope host tester}
      → Gives ((m >>= k) sc) b sc'
      → (a : A) × (mid : Scope host tester) × Gives (m sc) a mid × Gives (k a mid) b sc'
  unfolding ◌>>=◌
  Gives->>= m k sc e = Gives-go_on k (m sc) e

  -- What follows from a value of `m >>= k`, given what the two did.
  pub by_bind :
      {A B : Type 0} (m : Action host tester A) (k : A → Action host tester B)
      (sc : Scope host tester) {b : B} {sc' : Scope host tester} {C : Type 0}
      → Gives ((m >>= k) sc) b sc'
      → ((a : A) (mid : Scope host tester) → Gives (m sc) a mid → Gives (k a mid) b sc' → C)
      → C
  by_bind m k sc e f = let (a, mid, p, q) = Gives->>= m k sc e in f a mid p q

  pub Gives-leave :
      {A : Type 0} (o : Option (Result A × Scope host tester)) {a : A}
      {w : World (library host tester)}
      → leave host tester o ≡ some (value a, w)
      → (sc : Scope host tester) × Gives o a sc × (w.state ≡ sc.world.state)
  unfolding leave
  Gives-leave none e = absurd (cc)
  Gives-leave (some (r, sc)) e = (sc, cc, cc)

  module _ {A : Type 0} (call : ℕ → host.State → A × host.State) where
    -- A sandbox answered a call.
    abbrev Answered : Option ℕ → Scope host tester → A → Scope host tester → Type 0
    Answered o sc a sc' =
        (sandbox : ℕ) × (o ≡ some sandbox)
        × ((call sandbox sc.world.state).0 ≡ a)
        × (with_state host tester sc (call sandbox sc.world.state).1 ≡ sc')

    Answered-on :
        (o : Option ℕ) (sc : Scope host tester) {a : A} {sc' : Scope host tester}
        → Gives (on host tester call o sc) a sc'
        → Answered o sc a sc'
    Answered-on none sc e = absurd (cc)
    Answered-on (some sandbox) sc e = (sandbox, refl, cc, cc)

    pub Answered-on_sandbox :
        (sc : Scope host tester) {a : A} {sc' : Scope host tester}
        → Gives (on_sandbox host tester call sc) a sc'
        → Answered sc.object.sandbox sc a sc'
    unfolding on_sandbox
    Answered-on_sandbox sc e = Answered-on sc.object.sandbox sc e

  -- A read gave a text.
  abbrev Obtained :
      Scope host tester
      → Option (StatusOr Text × SandboxWithOutputFds × Os)
      → Text
      → Scope host tester
      → Type 0
  Obtained sc o text sc' =
      (o ≡ some (ok text, sc'.object, sc'.world.os)) × (sc'.world.state ≡ sc.world.state)

  Obtained-has_read :
      (sc : Scope host tester) (o : Option (StatusOr Text × SandboxWithOutputFds × Os))
      {text : Text} {sc' : Scope host tester}
      → Gives (has_read host tester sc o) text sc'
      → Obtained sc o text sc'
  Obtained-has_read sc none e = absurd (cc)
  Obtained-has_read sc (some (ok text, object, os)) e = (cc, cc)
  Obtained-has_read sc (some (err y, object, os)) e = absurd (cc)

  pub Obtained-read_stdout :
      (absl : Absl) (sc : Scope host tester) {text : Text} {sc' : Scope host tester}
      → Gives (read_stdout host tester absl sc) text sc'
      → Obtained sc (stdout absl sc.object sc.world.os) text sc'
  unfolding read_stdout
  Obtained-read_stdout absl sc e = Obtained-has_read sc (stdout absl sc.object sc.world.os) e

  pub Obtained-read_stderr :
      (absl : Absl) (sc : Scope host tester) {text : Text} {sc' : Scope host tester}
      → Gives (read_stderr host tester absl sc) text sc'
      → Obtained sc (stderr absl sc.object sc.world.os) text sc'
  unfolding read_stderr
  Obtained-read_stderr absl sc e = Obtained-has_read sc (stderr absl sc.object sc.world.os) e

  pub Gives-or_throw :
      {A : Type 0} (o : Option A) (sc : Scope host tester) {a : A} {sc' : Scope host tester}
      → Gives (or_throw host tester o sc) a sc'
      → (o ≡ some a) × (sc ≡ sc')
  Gives-or_throw none sc e = absurd (cc)
  Gives-or_throw (some b) sc e = (cc, cc)
