-- ===== src/TempPath.antt =====
-- `TempPath` of execution/temp_path.h: the directory of one test run, named by the time, the process
-- and a random number.
pub mod Names
pub mod Separate
pub mod Examples
use code_contests.Prelude.{
  ℕ, Bool, true, false, Option, none, some, ◌++◌, if◌then◌else◌, Text, codes,
}

-- The clock, the process, absl::Uniform, the file system, and `%d` of absl::StrFormat. `none` of
-- create_directory is an exception.
pub record Surroundings : Type 1 where
  pub State : Type 0
  pub unix_millis : State → ℕ × State
  pub pid : ℕ
  pub uniform : ℕ → ℕ → State → ℕ × State
  pub create_directory : Text → State → Option Bool × State
  pub print : ℕ → Text

module _ (s : Surroundings) where
  open s use {State, unix_millis, pid, uniform, create_directory, print}

  -- StrFormat("/tmp/%d-%d-%d", …)
  unfoldable pub path_of : ℕ → ℕ → ℕ → Text
  path_of millis process rand =
      codes "/tmp/" ++ (print millis ++ (codes "-" ++ (print process ++ (codes "-" ++ print rand))))

  -- The time and the random number, drawn in this order.
  abbrev pub drawn : State → ℕ × ℕ × State
  drawn state =
      let (millis, state₁) = unix_millis state in
      let (rand, state₂) = uniform 0 1000000 state₁ in (millis, rand, state₂)

  -- `if (!create_directory(path_)) abort();`
  abbrev pub unless_created : Text → Option Bool × State → Option Text × State
  unless_created path (some true, state) = (some path, state)
  unless_created path (some false, state) = (none, state)
  unless_created path (none, state) = (none, state)

  -- The constructor: the path of the new object, or `none` where the process ends.
  unfoldable pub construct_path : State → Option Text × State
  unfolding path_of
  construct_path state =
      let (millis, rand, state') = drawn state in
      let path = path_of millis pid rand in unless_created path (create_directory path state')
