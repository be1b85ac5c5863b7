-- ===== src/Policy/Filters.antt =====
-- What the base policy lets through of the system calls with filters.
use code_contests.Prelude.{
  ℕ, ◌%◌, ◌^◌, ◌≡◌, refl, ap, ap₂, sym, ◌∙◌, ◌⊎◌, ◌↔◌, inl, inr, Bool, true, false, ◌||◌, ◌&&◌,
  List, [], ◌∷◌, ◌++◌, map, Text, codes, text_eq, Bool-cases, arith,
}
use code_contests.Policy.{
  Call, allow_syscall, allow_syscalls, add_policy_on_syscall, add_file, add_directory, Mappings,
  join_paths, mprotect_filter, prlimit_filter, allows, if_defined, file_syscalls, startup_calls,
  syscall_calls, mapping_calls, closing_calls, create_base_policy,
}

abbrev names : Text → List Text → Bool
names name [] = false
names name (n ∷ ns) = text_eq n name || names name ns

-- Whether a call that names the system call itself lets it through with these arguments. The other
-- calls name nothing, and what the library makes of them is not said here.
abbrev lets : Text → (ℕ → ℕ) → Call → Bool
lets name args (allow_syscall n) = text_eq n name
lets name args (allow_syscalls ns) = names name ns
lets name args (add_policy_on_syscall n f) = text_eq n name && allows args 0 f
lets name args _ = false

-- Whether one of the calls of a policy does.
abbrev pub lets_any : Text → (ℕ → ℕ) → List Call → Bool
lets_any name args [] = false
lets_any name args (c ∷ cs) = lets name args c || lets_any name args cs

or_false : (b : Bool) → (b || false) ≡ b
or_false true = refl
or_false false = refl

lets_any-append :
    (name : Text) (args : ℕ → ℕ) (xs ys : List Call)
    → lets_any name args (xs ++ ys) ≡ (lets_any name args xs || lets_any name args ys)
lets_any-append name args [] ys = refl
lets_any-append name args (c ∷ xs) ys = elim (Bool-cases (lets name args c)) [
  | inl h ↦ rw h refl
  | inr h ↦ rw h (lets_any-append name args xs ys)
]

-- Calls for files and directories, before others.
lets_any-files :
    (name : Text) (args : ℕ → ℕ) (g : Text → Call) (fs : List Text) (cs : List Call)
    → ((f : Text) → lets name args (g f) ≡ false)
    → lets_any name args (map g fs ++ cs) ≡ lets_any name args cs
lets_any-files name args g [] cs h = refl
lets_any-files name args g (f ∷ fs) cs h =
    ap (λ b. b || lets_any name args (map g fs ++ cs)) (h f) ∙ lets_any-files name args g fs cs h

lets_any-map :
    (name : Text) (args : ℕ → ℕ) (g : Text → Call) (fs : List Text)
    → ((f : Text) → lets name args (g f) ≡ false)
    → lets_any name args (map g fs) ≡ false
lets_any-map name args g [] h = refl
lets_any-map name args g (f ∷ fs) h =
    ap (λ b. b || lets_any name args (map g fs)) (h f) ∙ lets_any-map name args g fs h

-- The two filters on their own.
allows_iff :
    (args : ℕ → ℕ)
    → ((allows args 0 mprotect_filter ≡ true) ↔ (
        (args 2 % 2 ^ 32 ≡ 5)
        ⊎ (args 2 % 2 ^ 32 ≡ 3)
        ⊎ (args 2 % 2 ^ 32 ≡ 1)
        ⊎ (args 2 % 2 ^ 32 ≡ 0)))
      × ((allows args 0 prlimit_filter ≡ true) ↔ ((args 0 ≡ 0) × (args 2 ≡ 0)))
unfolding allows
allows_iff args = (
  (λ h. ground (arith, h), λ h. ground (arith, h)),
  (λ h. ground (arith, h), λ h. ground (arith, h)),
)

module _ (defined : Text → Bool) where
  skip :
      (name n : Text) (ns : List Text)
      → text_eq n name ≡ false
      → names name (if_defined defined n ++ ns) ≡ names name ns
  skip name n ns h = elim (Bool-cases (defined n)) [
    | inl d ↦ rw d (ap (λ b. b || names name ns) h)
    | inr d ↦ rw d refl
  ]

  -- The lists of system calls do not have the two.
  files-mprotect : names (codes "mprotect") (file_syscalls defined) ≡ false
  unfolding text_eq
  files-mprotect =
      skip (codes "mprotect") (codes "access") _ refl
      ∙ skip (codes "mprotect") (codes "unlink") _ refl
      ∙ skip (codes "mprotect") (codes "poll") _ refl

  files-prlimit : names (codes "prlimit64") (file_syscalls defined) ≡ false
  unfolding text_eq
  files-prlimit =
      skip (codes "prlimit64") (codes "access") _ refl
      ∙ skip (codes "prlimit64") (codes "unlink") _ refl
      ∙ skip (codes "prlimit64") (codes "poll") _ refl

  only_defined :
      (name n : Text) → text_eq n name ≡ false → names name (if_defined defined n) ≡ false
  only_defined name n h = elim (Bool-cases (defined n)) [
    | inl d ↦ rw d (ap (λ b. b || false) h)
    | inr d ↦ rw d refl
  ]

  module _ (clone_flags set_name madv_free : ℕ) (args : ℕ → ℕ) where
    calls-mprotect :
        lets_any (codes "mprotect") args (syscall_calls defined clone_flags set_name madv_free)
        ≡ allows args 0 mprotect_filter
    unfolding text_eq
    calls-mprotect =
        ap₂ (λ b c. b || (c || (allows args 0 mprotect_filter || false))) files-mprotect
          (only_defined (codes "mprotect") (codes "epoll_wait") refl)
        ∙ or_false (allows args 0 mprotect_filter)

    calls-prlimit :
        lets_any (codes "prlimit64") args (syscall_calls defined clone_flags set_name madv_free)
        ≡ allows args 0 prlimit_filter
    unfolding text_eq
    calls-prlimit =
        ap₂ (λ b c. b || (c || (allows args 0 prlimit_filter || false))) files-prlimit
          (only_defined (codes "prlimit64") (codes "epoll_wait") refl)
        ∙ or_false (allows args 0 prlimit_filter)

    startup_lets :
        (name : Text)
        → text_eq (codes "readlink") name ≡ false
        → lets_any name args (startup_calls defined)
          ≡ lets_any name args (startup_calls (λ n. false))
    startup_lets name h = elim (Bool-cases (defined (codes "readlink"))) [
      | inl d ↦ rw d (ap (λ b. b || lets_any name args (startup_calls (λ n. false))) h)
      | inr d ↦ rw d refl
    ]

    module _ (name cwd binary : Text) (m : Mappings) where
      mapping_lets :
          lets_any name args (mapping_calls defined clone_flags set_name madv_free cwd m) ≡ false
      mapping_lets =
          lets_any-files name args (λ f. add_file (join_paths cwd f) true) m.ro_files _ (λ f. refl)
          ∙ lets_any-files name args (λ f. add_file (join_paths cwd f) false) m.rw_files _
              (λ f. refl)
          ∙ lets_any-files name args (λ d. add_directory (join_paths cwd d) true) m.ro_dirs _
              (λ d. refl)
          ∙ lets_any-map name args (λ d. add_directory (join_paths cwd d) false) m.rw_dirs
              (λ d. refl)

      -- Only the calls for system calls name any.
      base_policy_lets :
          text_eq (codes "readlink") name ≡ false
          → lets_any name args (startup_calls (λ n. false)) ≡ false
          → lets_any name args
              (create_base_policy defined clone_flags set_name madv_free cwd binary m)
            ≡ lets_any name args (syscall_calls defined clone_flags set_name madv_free)
      unfolding create_base_policy
      base_policy_lets h k =
          lets_any-append name args (startup_calls defined) _
          ∙ ap
              (λ b.
                b
                || lets_any name args (
                    syscall_calls defined clone_flags set_name madv_free
                    ++ (mapping_calls defined clone_flags set_name madv_free cwd m
                        ++ closing_calls defined clone_flags set_name madv_free binary)))
              (startup_lets name h ∙ k)
          ∙ lets_any-append name args (syscall_calls defined clone_flags set_name madv_free) (
              mapping_calls defined clone_flags set_name madv_free cwd m
              ++ closing_calls defined clone_flags set_name madv_free binary)
          ∙ ap (λ b. lets_any name args (syscall_calls defined clone_flags set_name madv_free) || b)
              (lets_any-append name args
                  (mapping_calls defined clone_flags set_name madv_free cwd m)
                  (closing_calls defined clone_flags set_name madv_free binary)
                ∙ ap (λ b. b || false) mapping_lets)
          ∙ or_false _

    -- Of the calls of the base policy that name a system call, whatever is mapped and whichever system
    -- calls the kernel's headers have: they let a program change the protection of memory exactly to
    -- none, read, read and write, or read and execute, never to write and execute (the low 32 bits of
    -- the third argument are what the filter sees); and they let it call prlimit64 exactly for itself
    -- and without setting a limit.
    pub base_policy_iff :
        (cwd binary : Text) (m : Mappings)
        → ((lets_any
                (codes "mprotect")
                args
                (create_base_policy defined clone_flags set_name madv_free cwd binary m)
              ≡ true)
            ↔ ((args 2 % 2 ^ 32 ≡ 5)
                ⊎ (args 2 % 2 ^ 32 ≡ 3)
                ⊎ (args 2 % 2 ^ 32 ≡ 1)
                ⊎ (args 2 % 2 ^ 32 ≡ 0)))
          × ((lets_any
                  (codes "prlimit64")
                  args
                  (create_base_policy defined clone_flags set_name madv_free cwd binary m)
                ≡ true)
              ↔ ((args 0 ≡ 0) × (args 2 ≡ 0)))
    unfolding text_eq
    base_policy_iff cwd binary m =
        let ((to, from), (to', from')) = allows_iff args in
        let e = base_policy_lets (codes "mprotect") cwd binary m refl refl ∙ calls-mprotect in
        let e' = base_policy_lets (codes "prlimit64") cwd binary m refl refl ∙ calls-prlimit in
        ((λ h. to (sym e ∙ h), λ a. e ∙ from a), (λ h. to' (sym e' ∙ h), λ a. e' ∙ from' a))
