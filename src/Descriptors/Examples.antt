-- ===== src/Descriptors/Examples.antt =====
-- Reads of a pipe: two chunks with an interruption between them, and a read that fails.
use code_contests.Prelude.{◌≡◌, refl, ◌↔◌, some, List, [], ◌∷◌, codes}
use code_contests.Status.{ok}
use code_contests.Absl.Examples.{plain_absl}
use code_contests.Descriptors.{
  ReadOutcome, bytes, failed, eintr, eagain, is_interruption, read_error, read_fd,
}
use code_contests.Descriptors.Laws.{Delivers, read_fd_iff}

abbrev two_chunks : List ReadOutcome
two_chunks =
    bytes (codes "he")
    ∷ failed eintr
    ∷ bytes (codes "llo")
    ∷ failed eagain
    ∷ bytes []
    ∷ failed 9
    ∷ []

read_two_chunks : read_fd plain_absl 5 two_chunks ≡ some (ok (codes "hello"), failed 9 ∷ [])
unfolding read_fd is_interruption
read_two_chunks = refl

bytes_before_an_error_are_lost :
    read_fd plain_absl 5 (bytes (codes "he") ∷ failed 9 ∷ []) ≡ some (read_error plain_absl 5 9, [])
unfolding read_fd is_interruption
bytes_before_an_error_are_lost = refl

read_fd_iff_example :
    (read_fd plain_absl 5 two_chunks ≡ some (ok (codes "hello"), failed 9 ∷ []))
    ↔ Delivers plain_absl 5 two_chunks (ok (codes "hello")) (failed 9 ∷ [])
read_fd_iff_example = read_fd_iff plain_absl 5 two_chunks (failed 9 ∷ []) (ok (codes "hello"))

abbrev open_pipe : List ReadOutcome
open_pipe = bytes (codes "he") ∷ failed eintr ∷ []
