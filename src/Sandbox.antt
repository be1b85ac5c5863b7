-- ===== src/Sandbox.antt =====
-- `SandboxWithOutputFds` and `UseCacheOrReadAndClose` of execution/tester_sandboxer.{h,cc}: a
-- sandbox with the descriptors of its two outputs, which are read once and cached.
pub mod Caching
pub mod Ownership
pub mod Ending
pub mod Still
mod Examples
use code_contests.Prelude.{
  ℕ, suc, Option, none, some, List, [], ◌∷◌, ◌==◌, if◌then◌else◌, Text, codes,
}
use code_contests.Status.{StatusOr, error, failed_precondition}
use code_contests.Absl.{Absl}
use code_contests.Descriptors.{ReadOutcome, read_fd}

-- What the system knows of the descriptors: the reads to come, and how often each was closed.
pub record Os : Type 0 where
  pub reads : ℕ → List ReadOutcome
  pub closes : ℕ → ℕ

-- A descriptor that may be kInvalidFd, which is `none`.
abbrev pub Fd : Type 0
Fd = Option ℕ

abbrev pub invalid_fd : Fd
invalid_fd = none

abbrev pub Cache : Type 0
Cache = Option (StatusOr Text)

abbrev pub update {ℓ} : {A : Type ℓ} → (ℕ → A) → ℕ → A → ℕ → A
update f i a j = if i == j then a else f j

-- `close(fd)`
abbrev pub close : ℕ → Os → Os
close fd os = record os { closes = update os.closes fd (suc (os.closes fd)) }

-- The two variables that `UseCacheOrReadAndClose` takes by reference.
pub record Stream : Type 0 where
  pub fd : Fd
  pub cache : Cache

abbrev pub not_set : StatusOr Text
not_set = error failed_precondition (codes "File descriptor not set.")

module _ (absl : Absl) where
  pub read_and_close : ℕ → Os → Option (StatusOr Text × Stream × Os)
  read_and_close fd os = elim (read_fd absl fd (os.reads fd)) [
    | none ↦ none
    | some (r, rest) ↦ some (
      r,
      record { fd = invalid_fd; cache = some r },
      close fd (record os { reads = update os.reads fd rest }),
    )
  ]

  pub use_fd : Fd → Os → Option (StatusOr Text × Stream × Os)
  unfolding read_and_close
  use_fd none os = some (not_set, record { fd = invalid_fd; cache = none }, os)
  use_fd (some fd) os = read_and_close fd os

  -- `none`: the read never returns.
  pub use_cache_or_read_and_close : Fd → Cache → Os → Option (StatusOr Text × Stream × Os)
  unfolding use_fd
  use_cache_or_read_and_close fd (some r) os = some (r, record { fd = fd; cache = some r }, os)
  use_cache_or_read_and_close fd none os = use_fd fd os

-- The sandbox itself is a number; `none` is the null pointer.
pub record SandboxWithOutputFds : Type 0 where
  pub sandbox : Option ℕ
  pub stdout_fd : Fd
  pub stderr_fd : Fd
  pub stdout_cache : Cache
  pub stderr_cache : Cache

-- The constructor.
unfoldable pub construct : Option ℕ → Fd → Fd → SandboxWithOutputFds
construct sandbox stdout_fd stderr_fd = record {
  sandbox = sandbox;
  stdout_fd = stdout_fd;
  stderr_fd = stderr_fd;
  stdout_cache = none;
  stderr_cache = none;
}

abbrev pub close_fd : Fd → Os → Os
close_fd none os = os
close_fd (some fd) os = close fd os

-- The destructor.
unfoldable pub destroy : SandboxWithOutputFds → Os → Os
destroy s os = close_fd s.stderr_fd (close_fd s.stdout_fd os)

module _ (absl : Absl) where
  abbrev pub move_cache : Cache → Cache
  move_cache none = none
  move_cache (some r) = some (absl.moved_from r)

  -- What a move leaves of the object that it is made from.
  unfoldable pub release : SandboxWithOutputFds → SandboxWithOutputFds
  release other = record {
    sandbox = none;
    stdout_fd = invalid_fd;
    stderr_fd = invalid_fd;
    stdout_cache = move_cache other.stdout_cache;
    stderr_cache = move_cache other.stderr_cache;
  }

  -- The move constructor: the new object, and `other` afterwards.
  unfoldable pub move_construct : SandboxWithOutputFds → SandboxWithOutputFds × SandboxWithOutputFds
  unfolding release
  move_construct other = (
    record {
      sandbox = other.sandbox;
      stdout_fd = other.stdout_fd;
      stderr_fd = other.stderr_fd;
      stdout_cache = other.stdout_cache;
      stderr_cache = other.stderr_cache;
    },
    release other,
  )

  -- The move assignment between two objects: `this` and `other` afterwards. No field of the old
  -- `this` is read.
  unfoldable pub move_assign :
      SandboxWithOutputFds → SandboxWithOutputFds → SandboxWithOutputFds × SandboxWithOutputFds
  unfolding release
  move_assign this other = (
    record this {
      sandbox = other.sandbox;
      stdout_fd = other.stdout_fd;
      stderr_fd = other.stderr_fd;
      stdout_cache = other.stdout_cache;
      stderr_cache = other.stderr_cache;
    },
    release other,
  )

  unfoldable pub stdout :
      SandboxWithOutputFds → Os → Option (StatusOr Text × SandboxWithOutputFds × Os)
  unfolding use_cache_or_read_and_close
  stdout s os = elim (use_cache_or_read_and_close absl s.stdout_fd s.stdout_cache os) [
    | none ↦ none
    | some (r, t, os') ↦ some (r, record s { stdout_fd = t.fd; stdout_cache = t.cache }, os')
  ]

  unfoldable pub stderr :
      SandboxWithOutputFds → Os → Option (StatusOr Text × SandboxWithOutputFds × Os)
  unfolding use_cache_or_read_and_close
  stderr s os = elim (use_cache_or_read_and_close absl s.stderr_fd s.stderr_cache os) [
    | none ↦ none
    | some (r, t, os') ↦ some (r, record s { stderr_fd = t.fd; stderr_cache = t.cache }, os')
  ]
