-- ===== src/Python/Examples.antt =====
-- Two binaries of one program, compiled in two directories, and the commands for one of them.
mod Compile
use code_contests.Prelude.{
  ℕ, ◌≡◌, refl, ◌≢◌, none, some, [], ◌∷◌, ◌++◌, length, drop, replicate, All, All-replicate,
  All-append, Text, codes, arith,
}
use code_contests.Python.{
  code_file, find, replace_path, without_header, program_hash, py2_tester, py3_tester, compilation,
  execution,
}
use code_contests.Python.Hash.{FirstAfter, program_hash-same}

-- A path does not occur where its first byte does not.
fresh-FirstAfter :
    (pre : Text) (c d : ℕ) (t rest : Text)
    → All (λ x. x ≢ d) pre
    → c ≢ d
    → FirstAfter pre c (d ∷ t) rest
fresh-FirstAfter [] c d t rest none_before n [] after k e = n (cc e)
fresh-FirstAfter (b ∷ pre) c d t rest (other, others) n [] after k e = other (cc e)
fresh-FirstAfter [] c d t rest none_before n (x ∷ before) after k e = absurd (omega (arith, k))
fresh-FirstAfter (b ∷ pre) c d t rest (other, others) n (x ∷ before) after k e =
    fresh-FirstAfter pre c d t rest others n before after (omega (arith, k)) (cc e)

-- Headers of 32 bytes, and one byte that both share.
abbrev pre : Text
pre = replicate 32 1 ++ 7 ∷ []

abbrev pre_again : Text
pre_again = replicate 32 2 ++ 7 ∷ []

abbrev first_path : Text
first_path = codes "/tmp/1/code.py"

abbrev second_path : Text
second_path = codes "/tmp/23/code.py"

hash-first_path :
    program_hash length (pre ++ (200 ∷ (first_path ++ codes "rest"))) first_path ≡ some 12
unfolding program_hash find replace_path without_header
hash-first_path = refl

hash-not_found : program_hash length pre first_path ≡ none
unfolding program_hash find replace_path without_header
hash-not_found = refl

commands-py2 :
    (compilation (py2_tester (codes "python2") []) (codes "/tmp/1")).0
    ≡ codes "python2" ∷ codes "-u" ∷ codes "-m" ∷ codes "py_compile" ∷ first_path ∷ []
unfolding compilation py2_tester
commands-py2 = refl

commands-py3 :
    (execution (py3_tester (codes "python3") []) (codes "/tmp/1")).0
    ≡ codes "python3" ∷ codes "/tmp/1/code.pyc" ∷ []
unfolding execution py3_tester
commands-py3 = refl

program_hash-same_example :
    (program_hash length (pre ++ (200 ∷ (first_path ++ codes "rest"))) first_path
      ≡ some (length (drop 32 pre ++ (code_file ++ codes "rest"))))
    × (program_hash length (pre_again ++ (201 ∷ (second_path ++ codes "rest"))) second_path
        ≡ some (length (drop 32 pre ++ (code_file ++ codes "rest"))))
program_hash-same_example =
    program_hash-same length pre pre_again 200 201 first_path second_path (codes "rest")
      (omega arith) (omega arith) refl
      (fresh-FirstAfter pre 200 b'/' (codes "tmp/1/code.py") (codes "rest")
        (All-append (λ x. x ≢ 47) (replicate 32 1) (7 ∷ [])
          (All-replicate (λ x. x ≢ 47) 32 1 (omega arith)) (omega arith, tt))
        (omega arith))
      (fresh-FirstAfter pre_again 201 b'/' (codes "tmp/23/code.py") (codes "rest")
        (All-append (λ x. x ≢ 47) (replicate 32 2) (7 ∷ [])
          (All-replicate (λ x. x ≢ 47) 32 2 (omega arith)) (omega arith, tt))
        (omega arith))
