-- ===== src/Sandbox/Examples.antt =====
-- A pipe with the word "hello" behind descriptor 5, and one with nothing behind descriptor 6.
use code_contests.Prelude.{
  ℕ, ◌+◌, ◌≡◌, refl, none, some, List, [], ◌∷◌, ◌==◌, if◌then◌else◌, codes, total, arith,
}
use code_contests.Status.{ok}
use code_contests.Absl.Examples.{plain_absl}
use code_contests.Descriptors.{ReadOutcome, bytes, is_interruption, read_fd}
use code_contests.Sandbox.{
  Os, SandboxWithOutputFds, construct, move_assign, stdout, stderr, update, close, destroy,
  move_construct,
}
use code_contests.Sandbox.Caching.{stdout-stdout, stdout-stderr_comm}
use code_contests.Sandbox.Ownership.{
  holds, owns, Store, balance, Reach, start, constructs, step, reads_stdout, destroys, moves,
  Reach-balance, move_assign-balance,
}

abbrev pipes : ℕ → List ReadOutcome
pipes d = if d == 5 then bytes (codes "hello") ∷ bytes [] ∷ [] else bytes [] ∷ []

abbrev fresh : Os
fresh = record { reads = pipes; closes = λ _. 0 }

abbrev first : SandboxWithOutputFds
first = record {
  sandbox = none;
  stdout_fd = some 5;
  stderr_fd = some 6;
  stdout_cache = none;
  stderr_cache = none;
}

abbrev first_read : SandboxWithOutputFds
first_read = record first { stdout_fd = none; stdout_cache = some (ok (codes "hello")) }

abbrev after_first : Os
after_first = close 5 (record fresh { reads = update pipes 5 [] })

reads_hello : stdout plain_absl first fresh ≡ some (ok (codes "hello"), first_read, after_first)
unfolding stdout is_interruption read_fd
reads_hello = refl

reads_again :
    stdout plain_absl first_read after_first ≡ some (ok (codes "hello"), first_read, after_first)
reads_again =
    stdout-stdout plain_absl first first_read fresh after_first (ok (codes "hello")) reads_hello

abbrev both_read : SandboxWithOutputFds
both_read = record first_read { stderr_fd = none; stderr_cache = some (ok []) }

abbrev after_both : Os
after_both = close 6 (record after_first { reads = update after_first.reads 6 [] })

reads_nothing : stderr plain_absl first_read after_first ≡ some (ok [], both_read, after_both)
unfolding stderr is_interruption read_fd
reads_nothing = refl

stdout-stderr_comm_example :
    (s : SandboxWithOutputFds) × (os : Os) × (stderr plain_absl first fresh ≡ some (ok [], s, os))
    × (stdout plain_absl s os ≡ some (ok (codes "hello"), both_read, after_both))
stdout-stderr_comm_example =
    stdout-stderr_comm plain_absl first first_read both_read fresh after_first after_both
      (ok (codes "hello")) (ok []) (λ d e. ground arith) reads_hello reads_nothing

abbrev opened : Store
opened = record { objects = some (construct none (some 5) (some 6)) ∷ []; os = fresh }

abbrev has_read : Store
has_read = record { objects = some first_read ∷ []; os = after_first }

abbrev was_moved : Store
was_moved = record has_read {
  objects =
      some (move_construct plain_absl first_read).0
      ∷ some (move_construct plain_absl first_read).1
      ∷ [];
}

abbrev last_left : Store
last_left = record {
  objects = some (move_construct plain_absl first_read).0 ∷ none ∷ [];
  os = destroy (move_construct plain_absl first_read).1 after_first;
}

abbrev all_gone : Store
all_gone = record {
  objects = none ∷ none ∷ [];
  os = destroy (move_construct plain_absl first_read).0 last_left.os;
}

Reach-read : Reach plain_absl fresh (some 5 ∷ some 6 ∷ []) has_read
unfolding construct
Reach-read =
    step (constructs none (some 5) (some 6) start) (reads_stdout 0 {s = first} refl reads_hello)

Reach-moved : Reach plain_absl fresh (some 5 ∷ some 6 ∷ []) was_moved
Reach-moved = step Reach-read (moves 0 refl)

Reach-gone : Reach plain_absl fresh (some 5 ∷ some 6 ∷ []) all_gone
Reach-gone = step (step Reach-moved (destroys 1 refl)) (destroys 0 refl)

Reach-balance_example :
    balance 6 was_moved ≡ fresh.closes 6 + total (holds 6) (some 5 ∷ some 6 ∷ [])
Reach-balance_example = Reach-balance plain_absl fresh Reach-moved 6

abbrev second : SandboxWithOutputFds
second = record first { stdout_fd = some 7; stderr_fd = some 8 }

abbrev two : Store
two = record { objects = some first ∷ some second ∷ []; os = fresh }

move_assign-balance_example :
    balance 5 (record two {
      objects =
          some (move_assign plain_absl first second).0
          ∷ some (move_assign plain_absl first second).1
          ∷ [];
    })
      + owns 5 first
    ≡ balance 5 two
move_assign-balance_example =
    move_assign-balance plain_absl two 0 1 first second (omega arith) refl refl 5
