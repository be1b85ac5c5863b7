-- ===== src/Execution/Unblocked.antt =====
-- The two reading threads of RunCodeOnInput are never stuck.
use code_contests.Prelude.{
  ℕ, ◌<◌, ◌≤◌, ◌≡◌, refl, subst, ◌⊎◌, none, some, Option, [], ◌∷◌, Text, arith,
}
use code_contests.Status.{StatusOr}
use code_contests.Absl.{Absl}
use code_contests.Sandbox.{Os, SandboxWithOutputFds}
use code_contests.Sandbox.Ending.{Readable}
use code_contests.Sandbox.Still.{stdout-Readable, stderr-Readable}
use code_contests.Pool.{Pool, Joined, Step, start_workers, started}
use code_contests.Pool.Progress.{
  LiveAt, Run, progress_at, Reach-Run, Reach-kept, Run-measure, measure-start_workers,
}
use code_contests.Execution.{
  Shared, Reader, reads_stdout, reads_stderr, Move, has_read_stdout, has_read_stderr, readers,
  before_reading,
}

module _ (absl : Absl) where
  abbrev IsReadable : Shared → Type 0
  IsReadable z = Readable absl z.object z.os

  reader-LiveAt : (z : Shared) → IsReadable z → LiveAt (readers absl) z
  reader-LiveAt z h reads_stdout tt =
      let (r, s', os', e, _) = stdout-Readable absl z.object z.os h in (_, none, has_read_stdout e)
  reader-LiveAt z h reads_stderr tt =
      let (r, s', os', e, _) = stderr-Readable absl z.object z.os h in (_, none, has_read_stderr e)

  same-Readable :
      {o : Option (StatusOr Text × SandboxWithOutputFds × Os)} {r q : StatusOr Text}
      {s s' : SandboxWithOutputFds} {os os' : Os}
      → o ≡ some (r, s, os)
      → o ≡ some (q, s', os')
      → Readable absl s os
      → Readable absl s' os'
  same-Readable {s = s} {s' = s'} {os = os} {os' = os'} e f h =
      let object_is : s ≡ s' = cc in
      let os_is : os ≡ os' = cc in
      subst (λ x. Readable absl s' x) os_is (subst (λ x. Readable absl x os) object_is h)

  Move-kept :
      (z z' : Shared) (t : Reader) (l : Unit {0}) (o : Option (Unit {0}))
      → Move absl z t l z' o
      → IsReadable z
      → IsReadable z'
  Move-kept z z' t l o (has_read_stdout e) h =
      let (r, s', os', f, k) = stdout-Readable absl z.object z.os h in same-Readable f e k
  Move-kept z z' t l o (has_read_stderr e) h =
      let (r, s', os', f, k) = stderr-Readable absl z.object z.os h in same-Readable f e k

  at_once :
      {z z' : Shared} {t : Reader} {l : Unit {0}} {o : Option (Unit {0})}
      → Move absl z t l z' o
      → o ≡ none
  at_once (has_read_stdout e) = refl
  at_once (has_read_stderr e) = refl

  abbrev cost : Unit {0} → ℕ
  cost l = 0

  falls :
      (z z' : Shared) (t : Reader) (l l' : Unit {0})
      → Move absl z t l z' (some l')
      → cost l' < cost l
  falls z z' t l l' m = absurd (cc (at_once m))

  -- However the two threads are scheduled, they take at most 13 steps with their pool, and wherever
  -- they have come to, one of them or the owner can go on, or the pool was joined.
  abbrev pub NeverStuck : SandboxWithOutputFds → Os → Type 0
  NeverStuck s os =
      (m : ℕ) (q : Pool (readers absl))
      → Run (readers absl)
          (start_workers (readers absl) 2 (reads_stdout ∷ reads_stderr ∷ []) (before_reading s os))
          m q
      → (m ≤ 13)
        × (Joined (readers absl) q ⊎ ((q' : Pool (readers absl)) × Step (readers absl) q q'))

  pub readers-NeverStuck :
      (s : SandboxWithOutputFds) (os : Os) → Readable absl s os → NeverStuck s os
  readers-NeverStuck s os h m q run =
      let reach = Reach-Run (readers absl) {n = 2} started run in
      (
        omega (
          arith,
          Run-measure (readers absl) cost falls run,
          measure-start_workers (readers absl) cost falls 2 (reads_stdout ∷ reads_stderr ∷ [])
              (before_reading s os),
        ),
        progress_at (readers absl)
            (reader-LiveAt q.shared (Reach-kept (readers absl) IsReadable Move-kept reach h)) reach,
      )
