-- ===== src/Python.antt =====
-- The Python testers of execution/py_tester_sandboxer.{h,cc}: their commands, and the hash of a
-- compiled program.
pub mod Hash
pub mod Calls
pub mod Confinement
pub mod Action
pub mod Compile
pub mod Closing
pub mod Giving
pub mod Compiled
pub mod Blaming
pub mod Causes
pub mod Failing
pub mod Returning
mod Examples
use code_contests.Prelude.{
  ℕ, zero, suc, ◌+◌, Bool, true, false, ◌&&◌, Option, none, some, List, [], ◌∷◌, ◌++◌, length, take,
  drop, ltb, ◌==◌, if◌then◌else◌, Text, codes,
}
use code_contests.Policy.{join_paths}
use code_contests.Launch.{Paths}

abbrev pub code_file : Text
code_file = codes "code.py"

abbrev pub binary_file : Text
binary_file = codes "code.pyc"

-- `a / b` of two paths, the second of which is relative.
abbrev pub in_directory : Text → Text → Text
in_directory a b = join_paths a b

pub record PyTesterSandboxer : Type 0 where
  pub compilation_command : List Text
  pub execution_command : List Text
  pub library_paths : List Text
  pub code_preamble : Text

unfoldable pub py3_tester : Text → List Text → PyTesterSandboxer
py3_tester interpreter_path library_paths = record {
  compilation_command = interpreter_path ∷ codes "-m" ∷ codes "py_compile" ∷ [];
  execution_command = interpreter_path ∷ [];
  library_paths = library_paths;
  code_preamble = [];
}

-- The preamble is the byte order mark of UTF-8.
unfoldable pub py2_tester : Text → List Text → PyTesterSandboxer
py2_tester interpreter_path library_paths = record {
  compilation_command = interpreter_path ∷ codes "-u" ∷ codes "-m" ∷ codes "py_compile" ∷ [];
  execution_command = interpreter_path ∷ [];
  library_paths = library_paths;
  code_preamble = 239 ∷ 187 ∷ 191 ∷ [];
}

-- The text that CompileCode writes, and its command in the temporary directory.
unfoldable pub source_text : PyTesterSandboxer → Text → Text
source_text tester code = tester.code_preamble ++ code

unfoldable pub compilation : PyTesterSandboxer → Text → List Text × Paths
compilation tester temp_path = (
  tester.compilation_command ++ in_directory temp_path code_file ∷ [],
  record { ro_files = []; ro_dirs = []; rw_dirs = temp_path ∷ [] },
)

-- The command of CreateTestSandbox, and the files that it may use.
unfoldable pub execution : PyTesterSandboxer → Text → List Text × Paths
execution tester temp_path = (
  tester.execution_command ++ in_directory temp_path binary_file ∷ [],
  record {
    ro_files = in_directory temp_path code_file ∷ in_directory temp_path binary_file ∷ [];
    ro_dirs = [];
    rw_dirs = temp_path ∷ [];
  },
)

abbrev pub begins_with : Text → Text → Bool
begins_with s [] = true
begins_with [] (d ∷ t) = false
begins_with (c ∷ s) (d ∷ t) = c == d && begins_with s t

-- std::string::find: where a text first occurs; `none` is npos.
unfoldable pub find : Text → Text → Option ℕ
find [] t = if begins_with [] t then some 0 else none
find (c ∷ s) t =
    let later = find s t in
    if begins_with (c ∷ s) t then some 0 else elim later [ none ↦ none | some i ↦ some (suc i) ]

-- `program_data.replace(program_data.find(abs_path) - 1, abs_path.size() + 1, kCodeFile)`. Where the
-- path is not found, or at the very beginning, the position is beyond the end of the text, and
-- `none` stands for the exception std::out_of_range.
unfoldable pub replace_path : Text → Text → Option Text
unfolding find
replace_path program_data abs_path = elim (find program_data abs_path) [
  | none ↦ none
  | some zero ↦ none
  | some (suc i) ↦
      some (take i program_data ++ (code_file ++ drop (i + (length abs_path + 1)) program_data))
]

-- `substr(32)`, with the exception where the text is shorter.
unfoldable pub without_header : Text → Option Text
without_header s = if ltb (length s) 32 then none else some (drop 32 s)

-- `none`: an exception is thrown. `fingerprint` is farmhash::Fingerprint64.
module _ (fingerprint : Text → ℕ) where
  unfoldable pub program_hash : Text → Text → Option ℕ
  unfolding replace_path without_header
  program_hash program_data abs_path = elim (replace_path program_data abs_path) [
    | none ↦ none
    | some relative ↦ elim (without_header relative) [
      | none ↦ none
      | some body ↦ some (fingerprint body)
    ]
  ]
