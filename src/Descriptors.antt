-- ===== src/Descriptors.antt =====
-- `BlockingReadIgnoringInterruptions` and `ReadFd` of execution/tester_sandboxer.cc. What the calls
-- of `::read` on a descriptor will give is a list, one entry for each call; where it ends, the next
-- call blocks for ever.
pub mod Laws
mod Examples
use code_contests.Prelude.{
  ℕ, zero, suc, ◌+◌, Bool, true, false, ◌||◌, Option, none, some, List, [], ◌∷◌, ◌++◌, ◌==◌, length,
  Text, codes,
}
use code_contests.Status.{StatusOr, ok, error, unknown}
use code_contests.Absl.{Absl}

-- The bytes that a call stores (none at the end of the file), or -1 with a value of `errno`.
pub data ReadOutcome : Type 0 where
  bytes : Text → ReadOutcome
  failed : (errno : ℕ) → ReadOutcome

-- EINTR and EAGAIN, as Linux numbers them
abbrev pub eintr : ℕ
eintr = 4

abbrev pub eagain : ℕ
eagain = 11

-- errno == EINTR || errno == EAGAIN
unfoldable pub is_interruption : ℕ → Bool
is_interruption errno = errno == eintr || errno == eagain

-- The first result that is no interruption, and the calls that come after it.
unfoldable pub blocking_read : List ReadOutcome → Option (ReadOutcome × List ReadOutcome)
blocking_read [] = none
blocking_read (bytes bs ∷ rest) = some (bytes bs, rest)
blocking_read (failed errno ∷ rest) = elim (is_interruption errno) [
  | true ↦ blocking_read rest
  | false ↦ some (failed errno, rest)
]

abbrev pub read_error : Absl → ℕ → ℕ → StatusOr Text
read_error absl fd errno =
    error unknown (absl.substitute (codes "Reading FD $0 failed with errno $1") (fd ∷ errno ∷ []))

module _ (absl : Absl) (fd : ℕ) where
  -- The `for (;;)` loop with `contents` so far. `none`: no call returns any more (or the fuel ran
  -- out, which the fuel of `read_fd` excludes).
  pub read_loop : ℕ → Text → List ReadOutcome → Option (StatusOr Text × List ReadOutcome)
  unfolding blocking_read
  read_loop zero contents calls = none
  read_loop (suc fuel) contents calls = elim (blocking_read calls) [
    | none ↦ none
    | some (failed errno, rest) ↦ some (read_error absl fd errno, rest)
    | some (bytes [], rest) ↦ some (ok contents, rest)
    | some (bytes (b ∷ bs), rest) ↦ read_loop fuel (contents ++ b ∷ bs) rest
  ]

  -- Every round takes an entry of the list, so this fuel is enough.
  unfoldable pub read_fd : List ReadOutcome → Option (StatusOr Text × List ReadOutcome)
  unfolding read_loop
  read_fd calls = read_loop (length calls + 1) [] calls
