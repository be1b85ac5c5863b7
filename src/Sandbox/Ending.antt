-- ===== src/Sandbox/Ending.antt =====
-- When reading both outputs ends.
use code_contests.Prelude.{
  arith, ℕ, ◌≡◌, refl, sym, ap, subst, List, ◌≢◌, inl, inr, none, some, Text, Option-cases,
}
use code_contests.Status.{StatusOr}
use code_contests.Absl.{Absl}
use code_contests.Descriptors.{ReadOutcome, read_fd}
use code_contests.Sandbox.{
  Os, Fd, Cache, Stream, use_cache_or_read_and_close, use_fd, SandboxWithOutputFds, stdout, stderr,
}
use code_contests.Sandbox.Caching.{Apart, shut, after_read, read_intro}

unchanged :
    (d g : ℕ) (rest : List ReadOutcome) (os : Os)
    → d ≢ g
    → (after_read d rest os).reads g ≡ os.reads g
unchanged d g rest os h = ground arith

module _ (absl : Absl) where
  -- The reads of a descriptor end.
  abbrev pub Ends : Os → Fd → Type 0
  Ends os none = Unit
  Ends os (some d) = read_fd absl d (os.reads d) ≢ none

  -- Both outputs can be read to their ends.
  pub record Readable (s : SandboxWithOutputFds) (os : Os) : Type 0 where
    pub apart : Apart s.stdout_fd s.stderr_fd
    pub ends_out : Ends os s.stdout_fd
    pub ends_err : Ends os s.stderr_fd

  pub still :
      (d : ℕ) (rest : List ReadOutcome) (os : Os) (gd : Fd)
      → Apart (some d) gd
      → Ends os gd
      → Ends (after_read d rest os) gd
  still d rest os none a e = tt
  still d rest os (some g) a e =
      let other : d ≢ g = λ same. a d refl (ap some (sym same)) in
      subst (λ calls. read_fd absl g calls ≢ none) (sym (unchanged d g rest os other)) e

  use-Ends :
      (fd : Fd) (cache : Cache) (os : Os)
      → Ends os fd
      → (r : StatusOr Text) × (t : Stream) × (os' : Os) × (use_cache_or_read_and_close absl fd cache
            os
          ≡ some (r, t, os'))
        × ((gd : Fd) → Apart fd gd → Ends os gd → Ends os' gd)
  unfolding use_cache_or_read_and_close use_fd
  use-Ends fd (some r) os h = (r, _, os, refl, λ gd a e. e)
  use-Ends none none os h = (_, _, os, refl, λ gd a e. e)
  use-Ends (some d) none os h = elim (Option-cases (read_fd absl d (os.reads d))) [
    | inl n ↦ absurd (h n)
    | inr ((r, rest), n) ↦
        (r, shut r, after_read d rest os, read_intro absl d os r rest n, still d rest os)
  ]

  -- The first of two outputs can be read, and the second then still can.
  pub stdout-Readable :
      (s : SandboxWithOutputFds) (os : Os)
      → Readable s os
      → (r : StatusOr Text) × (s' : SandboxWithOutputFds) × (os' : Os) × (stdout absl s os
          ≡ some (r, s', os'))
        × Ends os' s'.stderr_fd
  unfolding stdout
  stdout-Readable s os h =
      let (r, t, os', e, other) = use-Ends s.stdout_fd s.stdout_cache os h.ends_out in
      (
        r,
        record s { stdout_fd = t.fd; stdout_cache = t.cache },
        os',
        rw (stdout, e) refl,
        other s.stderr_fd h.apart h.ends_err,
      )

  pub stderr-Ends :
      (s : SandboxWithOutputFds) (os : Os)
      → Ends os s.stderr_fd
      → (r : StatusOr Text) × (s' : SandboxWithOutputFds) × (os' : Os) × (stderr absl s os
          ≡ some (r, s', os'))
  unfolding stderr
  stderr-Ends s os h =
      let (r, t, os', e, other) = use-Ends s.stderr_fd s.stderr_cache os h in
      (r, record s { stderr_fd = t.fd; stderr_cache = t.cache }, os', rw (stderr, e) refl)
