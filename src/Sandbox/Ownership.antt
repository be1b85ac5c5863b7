-- ===== src/Sandbox/Ownership.antt =====
-- Who must close a descriptor: a history of constructions, reads, moves and destructions over a
-- store of objects.
use code_contests.Prelude.{
  ℕ, ◌+◌, ◌≡◌, refl, ◌≢◌, inl, inr, Option, none, some, List, [], ◌∷◌, ◌==◌, if◌then◌else◌, Text,
  arith, get_elem?, set, total, total-set, get_elem?-set_ne, All, Option-cases, ◌∙◌,
}
use code_contests.Status.{StatusOr}
use code_contests.Absl.{Absl}
use code_contests.Sandbox.{
  Os, Fd, Cache, Stream, use_cache_or_read_and_close, SandboxWithOutputFds, construct, destroy,
  move_construct, move_assign, stdout, stderr,
}

-- How often a variable, an object, a place of the store must close `d`.
abbrev pub holds : ℕ → Fd → ℕ
holds d none = 0
holds d (some fd) = if fd == d then 1 else 0

abbrev pub owns : ℕ → SandboxWithOutputFds → ℕ
owns d s = holds d s.stdout_fd + holds d s.stderr_fd

abbrev pub place_owns : ℕ → Option SandboxWithOutputFds → ℕ
place_owns d none = 0
place_owns d (some s) = owns d s

-- The objects, `none` after the destruction.
pub record Store : Type 0 where
  pub objects : List (Option SandboxWithOutputFds)
  pub os : Os

abbrev pub owned : ℕ → Store → ℕ
owned d st = total (place_owns d) st.objects

pub data Step (absl : Absl) (st : Store) : Store → Type 0 where
  reads_stdout :
      (i : ℕ) {s s' : SandboxWithOutputFds} {r : StatusOr Text} {os' : Os}
      → get_elem? st.objects i ≡ some (some s)
      → stdout absl s st.os ≡ some (r, s', os')
      → Step absl st (record { objects = set st.objects i (some s'); os = os' })
  reads_stderr :
      (i : ℕ) {s s' : SandboxWithOutputFds} {r : StatusOr Text} {os' : Os}
      → get_elem? st.objects i ≡ some (some s)
      → stderr absl s st.os ≡ some (r, s', os')
      → Step absl st (record { objects = set st.objects i (some s'); os = os' })
  moves :
      (i : ℕ) {s : SandboxWithOutputFds}
      → get_elem? st.objects i ≡ some (some s)
      → Step absl st (record st {
        objects =
            some (move_construct absl s).0 ∷ set st.objects i (some (move_construct absl s).1);
      })
  destroys :
      (i : ℕ) {s : SandboxWithOutputFds}
      → get_elem? st.objects i ≡ some (some s)
      → Step absl st (record { objects = set st.objects i none; os = destroy s st.os })

module _ (absl : Absl) where
  use-closes :
      (d : ℕ) (fd : Fd) (cache : Cache) (os os' : Os) (r : StatusOr Text) (t : Stream)
      → use_cache_or_read_and_close absl fd cache os ≡ some (r, t, os')
      → os'.closes d + holds d t.fd ≡ os.closes d + holds d fd
  unfolding use_cache_or_read_and_close
  use-closes d fd (some c) os os' r t e = ground arith
  use-closes d none none os os' r t e = ground arith
  use-closes d (some fd) none os os' r t e = ground arith

  pub stdout-closes :
      (d : ℕ) (s s' : SandboxWithOutputFds) (os os' : Os) (r : StatusOr Text)
      → stdout absl s os ≡ some (r, s', os')
      → os'.closes d + owns d s' ≡ os.closes d + owns d s
  unfolding stdout
  stdout-closes d s s' os os' r e =
      elim (Option-cases (use_cache_or_read_and_close absl s.stdout_fd s.stdout_cache os)) [
        | inl n ↦ absurd (ground arith)
        | inr ((q, t, os''), n) ↦
            ground (arith, use-closes d s.stdout_fd s.stdout_cache os os'' q t n)
      ]

  pub stderr-closes :
      (d : ℕ) (s s' : SandboxWithOutputFds) (os os' : Os) (r : StatusOr Text)
      → stderr absl s os ≡ some (r, s', os')
      → os'.closes d + owns d s' ≡ os.closes d + owns d s
  unfolding stderr
  stderr-closes d s s' os os' r e =
      elim (Option-cases (use_cache_or_read_and_close absl s.stderr_fd s.stderr_cache os)) [
        | inl n ↦ absurd (ground arith)
        | inr ((q, t, os''), n) ↦
            ground (arith, use-closes d s.stderr_fd s.stderr_cache os os'' q t n)
      ]

  move-owns :
      (d : ℕ) (s : SandboxWithOutputFds)
      → (owns d (move_construct absl s).0 ≡ owns d s) × (owns d (move_construct absl s).1 ≡ 0)
  unfolding move_construct
  move-owns d s = (refl, refl)

pub destroy-closes :
    (d : ℕ) (s : SandboxWithOutputFds) (os : Os) → (destroy s os).closes d ≡ os.closes d + owns d s
unfolding destroy
destroy-closes d s os = ground arith

abbrev pub balance : ℕ → Store → ℕ
balance d st = st.os.closes d + owned d st

module _ (absl : Absl) where
  -- Reading an output, moving an object and destroying one hand each descriptor on or close it: how
  -- often `d` was closed, plus how often it is still to be closed, stays the same.
  pub Step-balance : {st st' : Store} → Step absl st st' → (d : ℕ) → balance d st' ≡ balance d st
  Step-balance {st} (reads_stdout i {s} {s'} {r} {os'} e h) d = omega (
    arith,
    stdout-closes absl d s s' st.os os' r h,
    total-set (place_owns d) st.objects i (some s) (some s') e,
  )
  Step-balance {st} (reads_stderr i {s} {s'} {r} {os'} e h) d = omega (
    arith,
    stderr-closes absl d s s' st.os os' r h,
    total-set (place_owns d) st.objects i (some s) (some s') e,
  )
  Step-balance {st} (moves i {s} e) d = omega (
    arith,
    move-owns absl d s,
    total-set (place_owns d) st.objects i (some s) (some (move_construct absl s).1) e,
  )
  Step-balance {st} (destroys i {s} e) d =
      omega (arith, destroy-closes d s st.os, total-set (place_owns d) st.objects i (some s) none e)

-- What can come of the descriptors `given` to constructors, none of them closed or kept before.
pub data Reach (absl : Absl) (os₀ : Os) : List Fd → Store → Type 0 where
  start : Reach absl os₀ [] (record { objects = []; os = os₀ })
  constructs :
      {given : List Fd} {st : Store} (sandbox : Option ℕ) (out err : Fd)
      → Reach absl os₀ given st
      → Reach absl os₀
          (out ∷ err ∷ given)
          (record st { objects = some (construct sandbox out err) ∷ st.objects })
  step :
      {given : List Fd} {st st' : Store}
      → Reach absl os₀ given st
      → Step absl st st'
      → Reach absl os₀ given st'

construct-owns :
    (d : ℕ) (sandbox : Option ℕ) (out err : Fd)
    → owns d (construct sandbox out err) ≡ holds d out + holds d err
unfolding construct
construct-owns d sandbox out err = refl

total-destroyed :
    (d : ℕ) (objects : List (Option SandboxWithOutputFds))
    → All (λ o. o ≡ none) objects
    → total (place_owns d) objects ≡ 0
total-destroyed d [] h = refl
total-destroyed d (o ∷ objects) h = rw h.0 (omega (arith, total-destroyed d objects h.1))

module _ (absl : Absl) (os₀ : Os) where
  -- In every history of constructions, reads, moves by construction and destructions, each
  -- descriptor has been closed, or is held to be closed, exactly as often as constructors got it.
  pub Reach-balance :
      {given : List Fd} {st : Store}
      → Reach absl os₀ given st
      → (d : ℕ) → balance d st ≡ os₀.closes d + total (holds d) given
  Reach-balance start d = omega arith
  Reach-balance (constructs sandbox out err r) d =
      omega (arith, construct-owns d sandbox out err, Reach-balance r d)
  Reach-balance (step r s) d = omega (arith, Step-balance absl s d, Reach-balance r d)

  -- In a history without move assignments, each descriptor was closed exactly as often as constructors
  -- got it, once all objects are destroyed.
  Reach-closes :
      {given : List Fd} {st : Store}
      → Reach absl os₀ given st
      → All (λ o. o ≡ none) st.objects
      → (d : ℕ) → st.os.closes d ≡ os₀.closes d + total (holds d) given
  Reach-closes {st} r h d = omega (arith, Reach-balance r d, total-destroyed d st.objects h)

module _ (absl : Absl) where
  -- The move assignment is different: a descriptor that the assigned object still held is lost. The
  -- balance falls by what the object held, so the descriptor is not closed and nobody will close it.
  pub move_assign-balance :
      (st : Store) (i j : ℕ) (s other : SandboxWithOutputFds)
      → i ≢ j
      → get_elem? st.objects i ≡ some (some s)
      → get_elem? st.objects j ≡ some (some other)
      → (d : ℕ)
      → balance d (record st {
        objects =
            set
              (set st.objects i (some (move_assign absl s other).0))
              j
              (some (move_assign absl s other).1);
      })
          + owns d s
        ≡ balance d st
  unfolding move_assign
  move_assign-balance st i j s other h eᵢ eⱼ d =
      let a = move_assign absl s other in
      let eⱼ' : get_elem? (set st.objects i (some a.0)) j ≡ some (some other) =
        get_elem?-set_ne st.objects i j (some a.0) h ∙ eⱼ in
      omega (
        arith,
        total-set (place_owns d) st.objects i (some s) (some a.0) eᵢ,
        total-set (place_owns d) (set st.objects i (some a.0)) j (some other) (some a.1) eⱼ',
      )
