-- ===== src/Execution/Reading.antt =====
-- What the two readers leave, in whichever order they finish.
use code_contests.Prelude.{
  ℕ, ◌+◌, ◌≡◌, refl, subst, ◌∙◌, sym, ◌⊎◌, inl, inr, none, some, List, [], ◌∷◌, total, arith,
}
use code_contests.Absl.{Absl}
use code_contests.Sandbox.{Os, SandboxWithOutputFds, stdout, stderr}
use code_contests.Sandbox.Caching.{Apart, stdout-stderr_comm, stderr-stdout_comm}
use code_contests.Sandbox.Ownership.{owns, stdout-closes, stderr-closes}
use code_contests.Pool.{
  Pool, Reach, Joined, started, step, schedules, closes, takes, stops, works, returns,
}
use code_contests.Pool.Completion.{all_returned}
use code_contests.Execution.{
  Reader, reads_stdout, reads_stderr, Shared, before_reading, Move, has_read_stdout,
  has_read_stderr, readers,
}

module _ (absl : Absl) where
  -- The readers of the list have run one after the other, the last one first.
  pub data Replay (s : Shared) : List Reader → Shared → Type 0 where
    nothing : Replay s [] s
    then :
        {ts : List Reader} {s₁ s₂ : Shared} {t : Reader}
        → Replay s ts s₁
        → Move absl s₁ t tt s₂ none
        → Replay s (t ∷ ts) s₂

  Reach-Replay :
      {n : ℕ} {ts : List Reader} {s : Shared} {p : Pool (readers absl)}
      → Reach (readers absl) n ts s p
      → Replay s p.returned p.shared
  Reach-Replay started = nothing
  Reach-Replay (step r (schedules e)) = Reach-Replay r
  Reach-Replay (step r (closes e f)) = Reach-Replay r
  Reach-Replay (step r (takes i e f)) = Reach-Replay r
  Reach-Replay (step r (stops i e f)) = Reach-Replay r
  Reach-Replay (step r (works i e m)) = elim m [ ]
  Reach-Replay (step r (returns i e m)) = then (Reach-Replay r) m

  abbrev is_stdout : Reader → ℕ
  is_stdout reads_stdout = 1
  is_stdout reads_stderr = 0

  abbrev both : List Reader
  both = reads_stdout ∷ reads_stderr ∷ []

  two_readers :
      (ts : List Reader)
      → total (λ _. 1) ts ≡ 2
      → total is_stdout ts ≡ 1
      → (ts ≡ reads_stdout ∷ reads_stderr ∷ []) ⊎ (ts ≡ reads_stderr ∷ reads_stdout ∷ [])
  two_readers [] h k = absurd (omega (arith, h))
  two_readers (a ∷ []) h k = absurd (omega (arith, h))
  two_readers (reads_stdout ∷ reads_stdout ∷ []) h k = absurd (omega (arith, k))
  two_readers (reads_stdout ∷ reads_stderr ∷ []) h k = inl refl
  two_readers (reads_stderr ∷ reads_stdout ∷ []) h k = inr refl
  two_readers (reads_stderr ∷ reads_stderr ∷ []) h k = absurd (omega (arith, k))
  two_readers (a ∷ b ∷ c ∷ ts) h k = absurd (omega (arith, h))

  -- Each reader once, stdout first or stderr first.
  abbrev pub Done : SandboxWithOutputFds → Os → Shared → Type 0
  Done s os z =
      Replay (before_reading s os) (reads_stderr ∷ reads_stdout ∷ []) z
      ⊎ Replay (before_reading s os) (reads_stdout ∷ reads_stderr ∷ []) z

  pub reading-Done :
      {s : SandboxWithOutputFds} {os : Os} {p : Pool (readers absl)}
      → Reach (readers absl) 2 both (before_reading s os) p
      → Joined (readers absl) p
      → Done s os p.shared
  reading-Done {s} {os} {p} r j =
      let (sums, _) = all_returned (readers absl) (omega arith) r j in
      elim (two_readers p.returned (sums (λ _. 1)) (sums is_stdout)) [
        | inl e ↦ inr (subst (λ ts. Replay (before_reading s os) ts p.shared) e (Reach-Replay r))
        | inr e ↦ inl (subst (λ ts. Replay (before_reading s os) ts p.shared) e (Reach-Replay r))
      ]

  module _ (s : SandboxWithOutputFds) (os : Os) where
    abbrev Replayed : List Reader → Shared → Type 0
    Replayed = Replay (before_reading s os)

    stdout_first :
        {y z : Shared}
        → Replayed (reads_stderr ∷ reads_stdout ∷ []) y
        → Replayed (reads_stderr ∷ reads_stdout ∷ []) z
        → y ≡ z
    stdout_first (then (then nothing (has_read_stdout e)) (has_read_stderr f))
          (then (then nothing (has_read_stdout g)) (has_read_stderr k)) =
        cc

    stderr_first :
        {y z : Shared}
        → Replayed (reads_stdout ∷ reads_stderr ∷ []) y
        → Replayed (reads_stdout ∷ reads_stderr ∷ []) z
        → y ≡ z
    stderr_first (then (then nothing (has_read_stderr e)) (has_read_stdout f))
          (then (then nothing (has_read_stderr g)) (has_read_stdout k)) =
        cc

    either_first :
        {y z : Shared}
        → Apart s.stdout_fd s.stderr_fd
        → Replayed (reads_stderr ∷ reads_stdout ∷ []) y
        → Replayed (reads_stdout ∷ reads_stderr ∷ []) z
        → y ≡ z
    either_first h
          (then
            (then nothing (has_read_stdout {r = r} {object = s₁} {os = os₁} e))
            (has_read_stderr {r = q} {object = s₂} {os = os₂} f))
          (then (then nothing (has_read_stderr g)) (has_read_stdout k)) =
        let (s₃, os₃, e', f') = stdout-stderr_comm absl s s₁ s₂ os os₁ os₂ r q h e f in cc

    pub Done-unique :
        {y z : Shared} → Apart s.stdout_fd s.stderr_fd → Done s os y → Done s os z → y ≡ z
    Done-unique h (inl a) (inl b) = stdout_first a b
    Done-unique h (inl a) (inr b) = either_first h a b
    Done-unique h (inr a) (inl b) = sym (either_first h b a)
    Done-unique h (inr a) (inr b) = stderr_first a b

    -- The outputs are read one after the other, stdout first.
    abbrev Sequential : Shared → Type 0
    Sequential z =
        (s₁ : SandboxWithOutputFds) × (os₁ : Os) × (stdout absl s os
          ≡ some (z.stdout_contents, s₁, os₁))
        × (stderr absl s₁ os₁ ≡ some (z.stderr_contents, z.object, z.os))

    pub Done-Sequential : {z : Shared} → Apart s.stdout_fd s.stderr_fd → Done s os z → Sequential z
    Done-Sequential h
          (inl (
            then
              (then nothing (has_read_stdout {r = r} {object = s₁} {os = os₁} e))
              (has_read_stderr {r = q} {object = s₂} {os = os₂} f))) =
        (s₁, os₁, e, f)
    Done-Sequential h
          (inr (
            then
              (then nothing (has_read_stderr {r = q} {object = s₁} {os = os₁} e))
              (has_read_stdout {r = r} {object = s₂} {os = os₂} f))) =
        stderr-stdout_comm absl s s₁ s₂ os os₁ os₂ r q h e f

    pub Done-closes :
        {z : Shared} (d : ℕ)
        → Done s os z
        → z.os.closes d + owns d z.object ≡ os.closes d + owns d s
    Done-closes d
          (inl (
            then
              (then nothing (has_read_stdout {r = r} {object = s₁} {os = os₁} e))
              (has_read_stderr {r = q} {object = s₂} {os = os₂} f))) =
        stderr-closes absl d s₁ s₂ os₁ os₂ q f ∙ stdout-closes absl d s s₁ os os₁ r e
    Done-closes d
          (inr (
            then
              (then nothing (has_read_stderr {r = q} {object = s₁} {os = os₁} e))
              (has_read_stdout {r = r} {object = s₂} {os = os₂} f))) =
        stdout-closes absl d s₁ s₂ os₁ os₂ r f ∙ stderr-closes absl d s s₁ os os₁ q e
