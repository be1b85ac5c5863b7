-- ===== src/Python/Blaming.antt =====
-- Which errors an action can end with.
use code_contests.Prelude.{ℕ, ◌≡◌, refl, Option, none, some, Text}
use code_contests.Status.{StatusOr, Error, ok, err}
use code_contests.Sandbox.{Os, SandboxWithOutputFds}
use code_contests.Host.{Host}
use code_contests.Python.{PyTesterSandboxer}
use code_contests.Python.Action.{
  Result, value, fails, throws, Scope, Action, on, on_sandbox, has_read, or_throw, updated, go_on,
  ◌>>=◌,
}
use code_contests.Python.Giving.{Gives}

module _ (host : Host) (tester : PyTesterSandboxer) where
  module _ (E : Error → Type 0) where
    -- An error of an action is one of `E`.
    abbrev pub Blames : {A : Type 0} → Option (Result A × Scope host tester) → Type 0
    Blames none = Unit
    Blames (some (value a, sc)) = Unit
    Blames (some (fails e, sc)) = E e
    Blames (some (throws, sc)) = Unit

    Blames-go_on :
        {A B : Type 0} (k : A → Action host tester B) (o : Option (Result A × Scope host tester))
        → Blames o
        → ((a : A) (mid : Scope host tester) → Gives host tester o a mid → Blames (k a mid))
        → Blames (go_on k o)
    Blames-go_on k none h f = tt
    Blames-go_on k (some (value a, sc)) h f = f a sc refl
    Blames-go_on k (some (fails e, sc)) h f = h
    Blames-go_on k (some (throws, sc)) h f = tt

    pub Blames->>= :
        {A B : Type 0} (m : Action host tester A) (k : A → Action host tester B)
        (sc : Scope host tester)
        → Blames (m sc)
        → ((a : A) (mid : Scope host tester) → Gives host tester (m sc) a mid → Blames (k a mid))
        → Blames ((m >>= k) sc)
    unfolding ◌>>=◌
    Blames->>= m k sc h f = Blames-go_on k (m sc) h f

    pub Blames-or_throw :
        {A : Type 0} (o : Option A) (sc : Scope host tester) → Blames (or_throw host tester o sc)
    Blames-or_throw none sc = tt
    Blames-or_throw (some a) sc = tt

    pub Blames-updated :
        (sc : Scope host tester) (o : Option host.State) → Blames (updated host tester sc o)
    Blames-updated sc none = tt
    Blames-updated sc (some state) = tt

    module _ {A : Type 0} (call : ℕ → host.State → A × host.State) where
      Blames-on : (o : Option ℕ) (sc : Scope host tester) → Blames (on host tester call o sc)
      Blames-on none sc = tt
      Blames-on (some n) sc = tt

      pub Blames-on_sandbox : (sc : Scope host tester) → Blames (on_sandbox host tester call sc)
      unfolding on_sandbox
      Blames-on_sandbox sc = Blames-on sc.object.sandbox sc

    pub Blames-has_read :
        (sc : Scope host tester) (o : Option (StatusOr Text × SandboxWithOutputFds × Os))
        → ((e : Error) (object : SandboxWithOutputFds) (os : Os)
            → o ≡ some (err e, object, os)
            → E e)
        → Blames (has_read host tester sc o)
    Blames-has_read sc none h = tt
    Blames-has_read sc (some (ok text, object, os)) h = tt
    Blames-has_read sc (some (err e, object, os)) h = h e object os refl
