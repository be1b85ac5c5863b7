-- ===== src/Policy/Examples.antt =====
-- A policy for a program with one writable directory, and calls that its filters judge.
use code_contests.Prelude.{
  ℕ, ◌%◌, ◌^◌, ◌≡◌, refl, ◌⊎◌, ◌↔◌, true, false, [], ◌∷◌, All, codes, if◌then◌else◌, ◌==◌,
}
use code_contests.Policy.{Mappings, join_paths, mprotect_filter, allows, create_base_policy}
use code_contests.Policy.Writable.{WritesOnly, create_base_policy-WritesOnly}
use code_contests.Policy.Filters.{lets_any, base_policy_iff}

abbrev mappings : Mappings
mappings = record {
  ro_files = codes "code.py" ∷ [];
  rw_files = [];
  ro_dirs = [];
  rw_dirs = codes "/tmp/1" ∷ [];
}

joined-relative : join_paths (codes "/home") (codes "code.py") ≡ codes "/home/code.py"
joined-relative = refl

joined-absolute : join_paths (codes "/home") (codes "/tmp/1") ≡ codes "/tmp/1"
joined-absolute = refl

-- The third argument of mprotect.
abbrev protection : ℕ → ℕ → ℕ
protection p i = if i == 2 then p else 0

allows-write_and_execute : allows (protection 6) 0 mprotect_filter ≡ false
unfolding allows
allows-write_and_execute = refl

mappings-WritesOnly : All (WritesOnly (codes "/home") mappings) (
    create_base_policy (λ _. true) 4001536 15 8 (codes "/home") (codes "/usr/bin/python3") mappings)
mappings-WritesOnly =
    create_base_policy-WritesOnly (λ _. true) 4001536 15 8 (codes "/home")
      (codes "/usr/bin/python3") mappings

base_policy_iff_example :
    ((lets_any (codes "mprotect") (protection 3) (
          create_base_policy
            (λ _. true)
            4001536
            15
            8
            (codes "/home")
            (codes "/usr/bin/python3")
            mappings)
        ≡ true)
      ↔ ((protection 3 2 % 2 ^ 32 ≡ 5)
          ⊎ (protection 3 2 % 2 ^ 32 ≡ 3)
          ⊎ (protection 3 2 % 2 ^ 32 ≡ 1)
          ⊎ (protection 3 2 % 2 ^ 32 ≡ 0)))
    × ((lets_any (codes "prlimit64") (protection 3) (
            create_base_policy
              (λ _. true)
              4001536
              15
              8
              (codes "/home")
              (codes "/usr/bin/python3")
              mappings)
          ≡ true)
        ↔ ((protection 3 0 ≡ 0) × (protection 3 2 ≡ 0)))
base_policy_iff_example =
    base_policy_iff (λ _. true) 4001536 15 8 (protection 3) (codes "/home")
      (codes "/usr/bin/python3") mappings
