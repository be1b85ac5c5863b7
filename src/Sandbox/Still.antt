-- ===== src/Sandbox/Still.antt =====
-- What one read leaves readable.
use code_contests.Prelude.{◌≡◌, refl, inl, inr, none, some, Text, Option-cases}
use code_contests.Status.{StatusOr}
use code_contests.Absl.{Absl}
use code_contests.Descriptors.{read_fd}
use code_contests.Sandbox.{
  Os, Fd, Cache, Stream, use_cache_or_read_and_close, use_fd, SandboxWithOutputFds, stdout, stderr,
}
use code_contests.Sandbox.Caching.{Apart, shut, after_read, read_intro}
use code_contests.Sandbox.Ending.{Ends, Readable, still}

module _ (absl : Absl) where
  -- A read of an output ends, and what it leaves of this output and of another can be read still.
  use-Readable :
      (fd : Fd) (cache : Cache) (os : Os)
      → Ends absl os fd
      → (r : StatusOr Text) × (t : Stream) × (os' : Os) × (use_cache_or_read_and_close absl fd cache
            os
          ≡ some (r, t, os'))
        × Ends absl os' t.fd
        × ((gd : Fd) → Apart fd gd → Ends absl os gd → Apart t.fd gd × Ends absl os' gd)
  unfolding use_cache_or_read_and_close use_fd
  use-Readable fd (some r) os h = (r, _, os, refl, h, λ gd a e. (a, e))
  use-Readable none none os h = (_, _, os, refl, tt, λ gd a e. (a, e))
  use-Readable (some d) none os h = elim (Option-cases (read_fd absl d (os.reads d))) [
    | inl n ↦ absurd (h n)
    | inr ((r, rest), n) ↦ (
      r,
      shut r,
      after_read d rest os,
      read_intro absl d os r rest n,
      tt,
      λ gd a e. ((λ x p q. cc), still absl d rest os gd a e),
    )
  ]

  pub stdout-Readable :
      (s : SandboxWithOutputFds) (os : Os)
      → Readable absl s os
      → (r : StatusOr Text) × (s' : SandboxWithOutputFds) × (os' : Os) × (stdout absl s os
          ≡ some (r, s', os'))
        × Readable absl s' os'
  unfolding stdout
  stdout-Readable s os h =
      let (r, t, os', e, own, other) = use-Readable s.stdout_fd s.stdout_cache os h.ends_out in
      let (apart, ends) = other s.stderr_fd h.apart h.ends_err in
      (
        r,
        record s { stdout_fd = t.fd; stdout_cache = t.cache },
        os',
        rw (stdout, e) refl,
        record { apart = apart; ends_out = own; ends_err = ends },
      )

  pub stderr-Readable :
      (s : SandboxWithOutputFds) (os : Os)
      → Readable absl s os
      → (r : StatusOr Text) × (s' : SandboxWithOutputFds) × (os' : Os) × (stderr absl s os
          ≡ some (r, s', os'))
        × Readable absl s' os'
  unfolding stderr
  stderr-Readable s os h =
      let (r, t, os', e, own, other) = use-Readable s.stderr_fd s.stderr_cache os h.ends_err in
      let (apart, ends) = other s.stdout_fd (λ d p q. h.apart d q p) h.ends_out in
      (
        r,
        record s { stderr_fd = t.fd; stderr_cache = t.cache },
        os',
        rw (stderr, e) refl,
        record { apart = λ d p q. apart d q p; ends_out = ends; ends_err = own },
      )
