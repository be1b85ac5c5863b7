-- ===== src/Descriptors/Laws.antt =====
-- What a descriptor delivers, as a relation on the results of its reads, and that `read_fd` computes
-- this relation.
use mathlib.Core.List.{append-nil, append_assoc}
use code_contests.Prelude.{
  ℕ, zero, suc, ◌+◌, ◌<◌, ◌≡◌, refl, sym, ap, ◌∙◌, subst, ◌↔◌, inl, inr, true, false, Option, none,
  some, List, [], ◌∷◌, ◌++◌, Text, length, All, arith, Bool-cases,
}
use code_contests.Status.{StatusOr, ok, err}
use code_contests.Absl.{Absl}
use code_contests.Descriptors.{
  ReadOutcome, bytes, failed, is_interruption, read_error, read_loop, read_fd,
}

abbrev pub prepend : Text → StatusOr Text → StatusOr Text
prepend t (ok u) = ok (t ++ u)
prepend t (err e) = err e

-- The reads `calls` give a text and then the end of the file, or end in an error; `rest` is never
-- read. Interrupted calls leave no trace.
pub data Delivers (absl : Absl) (fd : ℕ)
    : List ReadOutcome → StatusOr Text → List ReadOutcome → Type 0 where
  end_of_file : {rest : List ReadOutcome} → Delivers absl fd (bytes [] ∷ rest) (ok []) rest
  hard_error :
      {errno : ℕ} {rest : List ReadOutcome}
      → is_interruption errno ≡ false
      → Delivers absl fd (failed errno ∷ rest) (read_error absl fd errno) rest
  interrupted :
      {errno : ℕ} {calls rest : List ReadOutcome} {r : StatusOr Text}
      → is_interruption errno ≡ true
      → Delivers absl fd calls r rest
      → Delivers absl fd (failed errno ∷ calls) r rest
  chunk :
      {b : ℕ} {bs : Text} {calls rest : List ReadOutcome} {r s : StatusOr Text}
      → Delivers absl fd calls r rest
      → s ≡ prepend (b ∷ bs) r
      → Delivers absl fd (bytes (b ∷ bs) ∷ calls) s rest

-- The reads go on for ever: each is interrupted or gives some bytes.
abbrev pub IsMore : ReadOutcome → Type 0
IsMore (bytes bs) = (b : ℕ) × (t : Text) × (bs ≡ b ∷ t)
IsMore (failed errno) = is_interruption errno ≡ true

prepend-nil : (r : StatusOr Text) → prepend [] r ≡ r
prepend-nil (ok t) = refl
prepend-nil (err e) = refl

prepend-prepend : (t u : Text) (r : StatusOr Text) → prepend (t ++ u) r ≡ prepend t (prepend u r)
prepend-prepend t u (ok v) = ap ok (append_assoc t u v)
prepend-prepend t u (err e) = refl

module _ (absl : Absl) (fd : ℕ) where
  loop-interrupted :
      (fuel : ℕ) (contents : Text) (errno : ℕ) (calls : List ReadOutcome)
      → is_interruption errno ≡ true
      → read_loop absl fd (suc fuel) contents (failed errno ∷ calls)
        ≡ read_loop absl fd (suc fuel) contents calls
  unfolding read_loop
  loop-interrupted fuel contents errno calls e = ground arith

  loop-failed :
      (fuel : ℕ) (contents : Text) (errno : ℕ) (calls : List ReadOutcome)
      → is_interruption errno ≡ false
      → read_loop absl fd (suc fuel) contents (failed errno ∷ calls)
        ≡ some (read_error absl fd errno, calls)
  unfolding read_loop
  loop-failed fuel contents errno calls e = ground arith

  loop_of_Delivers :
      (fuel : ℕ) (contents : Text) {calls rest : List ReadOutcome} {r : StatusOr Text}
      → Delivers absl fd calls r rest
      → length calls < fuel
      → read_loop absl fd fuel contents calls ≡ some (prepend contents r, rest)
  unfolding read_loop
  loop_of_Delivers zero contents d h = absurd (omega arith)
  loop_of_Delivers (suc fuel) contents end_of_file h = rw (append-nil contents)
  loop_of_Delivers (suc fuel) contents (hard_error {errno} {rest} e) h =
      loop-failed fuel contents errno rest e
  loop_of_Delivers (suc fuel) contents (interrupted {errno} {calls} e d) h =
      loop-interrupted fuel contents errno calls e
      ∙ loop_of_Delivers (suc fuel) contents d (omega arith)
  loop_of_Delivers (suc fuel) contents (chunk {b} {bs} {calls} {rest} {r} d e) h =
      loop_of_Delivers fuel (contents ++ b ∷ bs) d (omega arith)
      ∙ rw (e, prepend-prepend contents (b ∷ bs) r)

  Delivers-of_loop :
      (fuel : ℕ) (contents : Text) (calls rest : List ReadOutcome) (s : StatusOr Text)
      → read_loop absl fd fuel contents calls ≡ some (s, rest)
      → (r : StatusOr Text) × Delivers absl fd calls r rest × (s ≡ prepend contents r)
  unfolding read_loop
  Delivers-of_loop zero contents calls rest s h = absurd (cc)
  Delivers-of_loop (suc fuel) contents [] rest s h = absurd (cc)
  Delivers-of_loop (suc fuel) contents (bytes [] ∷ calls) rest s h = (
    ok [],
    subst (Delivers absl fd (bytes [] ∷ calls) (ok [])) (cc) end_of_file,
    ground (arith, append-nil contents),
  )
  Delivers-of_loop (suc fuel) contents (bytes (b ∷ bs) ∷ calls) rest s h =
      let (r, d, e) = Delivers-of_loop fuel (contents ++ b ∷ bs) calls rest s h in
      (prepend (b ∷ bs) r, chunk d refl, e ∙ prepend-prepend contents (b ∷ bs) r)
  Delivers-of_loop (suc fuel) contents (failed errno ∷ calls) rest s h =
      elim (Bool-cases (is_interruption errno)) [
        | inl e ↦
            let (r, d, q) =
              Delivers-of_loop (suc fuel) contents calls rest s
                (sym (loop-interrupted fuel contents errno calls e) ∙ h) in
            (r, interrupted e d, q)
        | inr e ↦
            let gone : ◌≡◌ {A = Option (StatusOr Text × List ReadOutcome)}
                (some (read_error absl fd errno, calls)) (some (s, rest)) =
              sym (loop-failed fuel contents errno calls e) ∙ h in
            (
              read_error absl fd errno,
              subst (Delivers absl fd (failed errno ∷ calls) (read_error absl fd errno)) (cc)
                  (hard_error e),
              cc,
            )
      ]

  -- `read_fd` returns a result exactly when the reads deliver it: all bytes up to the end of the
  -- file in order, or the first error that is no interruption, whatever was read before; and it
  -- makes no call beyond that point.
  pub read_fd_iff :
      (calls rest : List ReadOutcome) (r : StatusOr Text)
      → (read_fd absl fd calls ≡ some (r, rest)) ↔ Delivers absl fd calls r rest
  unfolding read_fd
  read_fd_iff calls rest r = (
    λ h.
        let (s, d, e) = Delivers-of_loop (length calls + 1) [] calls rest r h in
        subst (λ x. Delivers absl fd calls x rest) (sym (e ∙ prepend-nil s)) d,
    λ d. loop_of_Delivers (length calls + 1) [] d (omega arith) ∙ rw (prepend-nil r),
  )

  loop_blocks :
      (fuel : ℕ) (contents : Text) (calls : List ReadOutcome)
      → All IsMore calls
      → read_loop absl fd fuel contents calls ≡ none
  unfolding read_loop
  loop_blocks zero contents calls m = refl
  loop_blocks (suc fuel) contents [] m = refl
  loop_blocks (suc fuel) contents (bytes bs ∷ calls) m =
      let (b, t, e) = m.0 in rw (e, read_loop) (loop_blocks fuel (contents ++ b ∷ t) calls m.1)
  loop_blocks (suc fuel) contents (failed errno ∷ calls) m =
      loop-interrupted fuel contents errno calls m.0 ∙ loop_blocks (suc fuel) contents calls m.1

  loop_ends :
      (fuel : ℕ) (contents : Text) (calls : List ReadOutcome)
      → length calls < fuel
      → read_loop absl fd fuel contents calls ≡ none
      → All IsMore calls
  unfolding read_loop
  loop_ends zero contents calls f h = absurd (omega arith)
  loop_ends (suc fuel) contents [] f h = tt
  loop_ends (suc fuel) contents (bytes [] ∷ calls) f h = absurd (cc)
  loop_ends (suc fuel) contents (bytes (b ∷ bs) ∷ calls) f h =
      ((b, bs, refl), loop_ends fuel (contents ++ b ∷ bs) calls (omega arith) h)
  loop_ends (suc fuel) contents (failed errno ∷ calls) f h =
      elim (Bool-cases (is_interruption errno)) [
        | inl e ↦ (
          e,
          loop_ends (suc fuel) contents calls (omega arith)
              (sym (loop-interrupted fuel contents errno calls e) ∙ h),
        )
        | inr e ↦ absurd (cc (loop-failed fuel contents errno calls e))
      ]

  -- `read_fd` never returns exactly when every call it makes gives some bytes or is interrupted: the
  -- fuel of the model never runs out.
  pub read_fd-eq-none_iff :
      (calls : List ReadOutcome) → (read_fd absl fd calls ≡ none) ↔ All IsMore calls
  unfolding read_fd
  read_fd-eq-none_iff calls =
      (loop_ends (length calls + 1) [] calls (omega arith), loop_blocks (length calls + 1) [] calls)
