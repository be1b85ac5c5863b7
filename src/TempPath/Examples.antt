-- ===== src/TempPath/Examples.antt =====
-- A process that makes two directories in one millisecond.
use code_contests.Prelude.{ℕ, ◌+◌, ◌≡◌, refl, true, false, some, none, codes}
use code_contests.Results.Print.{decimal}
use code_contests.TempPath.{Surroundings, construct_path, path_of}
use code_contests.TempPath.Names.{read_path, construct_path-read_path, decimal-PrintsNumbers}

-- The state is the last random number.
abbrev pub surroundings : Surroundings
surroundings = record {
  State = ℕ;
  unix_millis = λ n. (1642000000000, n);
  pid = 17;
  uniform = λ low high n. (n, n + 1);
  create_directory = λ path n. (some true, n);
  print = decimal;
}

pub constructs : construct_path surroundings 40 ≡ (some (codes "/tmp/1642000000000-17-40"), 41)
unfolding construct_path path_of decimal
constructs = refl

pub constructs_again :
    construct_path surroundings 41 ≡ (some (codes "/tmp/1642000000000-17-41"), 42)
unfolding construct_path path_of decimal
constructs_again = refl

refused :
    (construct_path (record surroundings { create_directory = λ path n. (some false, n) }) 40).0
    ≡ none
unfolding construct_path path_of decimal
refused = refl

construct_path-read_path_example :
    (read_path (codes "/tmp/1642000000000-17-40") ≡ (1642000000000, 17, 40))
    × ((surroundings.create_directory (codes "/tmp/1642000000000-17-40") 41).0 ≡ some true)
    × ((surroundings.create_directory (codes "/tmp/1642000000000-17-40") 41).1 ≡ 41)
construct_path-read_path_example =
    construct_path-read_path surroundings decimal-PrintsNumbers 40 41
      (codes "/tmp/1642000000000-17-40") constructs
