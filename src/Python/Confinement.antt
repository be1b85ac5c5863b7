-- ===== src/Python/Confinement.antt =====
-- What the sandboxes of the Python testers can do.
use code_contests.Prelude.{
  ℕ, ◌<◌, ◌^◌, ◌≡◌, refl, subst, inl, inr, true, false, some, List, [], ◌∷◌, map, All, All-append,
  All-mono, Bool-cases, Text, codes, arith,
}
use code_contests.Status.{ok}
use code_contests.Sandbox.{SandboxWithOutputFds}
use code_contests.Runner.Task.{TestOptions, default_options}
use code_contests.Host.{Host}
use code_contests.Policy.{
  Call, allow_syscall, allow_syscalls, allow, add_policy_on_syscall, add_file, add_directory,
  add_file_at, add_libraries_for_binary, collect_stacktraces, join_paths, call_if_defined,
  create_base_policy,
}
use code_contests.Policy.Writable.{
  WritesOnly, AmongPaths, All-map_any, create_base_policy-WritesOnly,
}
use code_contests.Launch.{Executor, Paths, World}
use code_contests.Launch.Bounds.{Confined, Made, create_sandbox_with_fds-Made}
use code_contests.Python.{PyTesterSandboxer, compilation, execution}
use code_contests.Python.Calls.{
  mappings_of, library, python_calls, policy_calls, create_test_sandbox, create_compilation_sandbox,
}

module _ (host : Host) (tester : PyTesterSandboxer) where
  open host use {defined, working_directory, clone_flags, pr_set_name, madv_free}

  -- A call makes nothing writable but the device of random numbers and the directory `dir`.
  abbrev pub WritesIn : Text → Call → Type 0
  WritesIn dir (add_file path false) = path ≡ codes "/dev/urandom"
  WritesIn dir (add_directory path false) = path ≡ join_paths working_directory dir
  WritesIn dir _ = Unit

  module _ (dir : Text) (paths : Paths) (only : paths.rw_dirs ≡ dir ∷ []) where
    from_base : (c : Call) → WritesOnly working_directory (mappings_of paths) c → WritesIn dir c
    from_base (add_file path false) h = absurd h
    from_base (add_directory path false) h =
        elim (subst (AmongPaths working_directory path) only h) [ inl e ↦ e | inr x ↦ absurd x ]
    from_base (add_file path true) h = tt
    from_base (add_directory path true) h = tt
    from_base (allow_syscall n) h = tt
    from_base (allow_syscalls n) h = tt
    from_base (allow n) h = tt
    from_base (add_policy_on_syscall n p) h = tt
    from_base (add_file_at a b) h = tt
    from_base (add_libraries_for_binary b) h = tt
    from_base (collect_stacktraces a b) h = tt

    if_defined-WritesIn : (name : Text) → All (WritesIn dir) (call_if_defined defined name)
    if_defined-WritesIn name = elim (Bool-cases (defined name)) [
      | inl h ↦ rw h (tt, tt)
      | inr h ↦ rw h tt
    ]

    python_calls-WritesIn : (binary : Text) → All (WritesIn dir) (python_calls host tester binary)
    python_calls-WritesIn binary = (
      tt,
      (
        tt,
        All-append (WritesIn dir) (call_if_defined defined (codes "select")) _
            (if_defined-WritesIn (codes "select"))
            (
              tt,
              All-append (WritesIn dir) (call_if_defined defined (codes "mkdir")) _
                  (if_defined-WritesIn (codes "mkdir"))
                  (
                    tt,
                    All-append (WritesIn dir) (call_if_defined defined (codes "rename")) _
                        (if_defined-WritesIn (codes "rename"))
                        (
                          tt,
                          (
                            tt,
                            (
                              refl,
                              All-append (WritesIn dir)
                                  (map (λ path. add_directory path true) tester.library_paths) _
                                  (All-map_any (WritesIn dir) (λ path. add_directory path true)
                                    (λ path. tt) tester.library_paths)
                                  (tt, tt),
                            ),
                          ),
                        ),
                  ),
            ),
      ),
    )

    policy_calls-WritesIn :
        (binary : Text) → All (WritesIn dir) (policy_calls host tester binary paths)
    unfolding policy_calls
    policy_calls-WritesIn binary =
        All-append (WritesIn dir)
          (create_base_policy defined clone_flags pr_set_name madv_free working_directory binary
            (mappings_of paths))
          _
          (All-mono (WritesOnly working_directory (mappings_of paths)) (WritesIn dir) from_base _ (
            create_base_policy-WritesOnly defined clone_flags pr_set_name madv_free
              working_directory binary (mappings_of paths)))
          (python_calls-WritesIn binary)

  -- A sandbox for a command, made confined, and with a policy under which it can write to nothing but
  -- `dir` and the device.
  abbrev pub Jailed : List Text → TestOptions → Text → SandboxWithOutputFds → Type 0
  Jailed command options dir s =
      (x : Executor) × (paths : Paths) × (policy : host.Policy) × (before : host.State) × Confined
        (library host tester) options command x
      × ((host.try_build (policy_calls host tester x.path paths) before).0 ≡ ok policy)
      × All (WritesIn dir) (policy_calls host tester x.path paths)
      × (s.sandbox
          ≡ some
              (host.make_sandbox x policy
                (host.try_build (policy_calls host tester x.path paths) before).1).0)

  Made-Jailed :
      (command : List Text) (options : TestOptions) (dir : Text) (paths : Paths)
      (s : SandboxWithOutputFds)
      → paths.rw_dirs ≡ dir ∷ []
      → Made (library host tester) command options paths s
      → Jailed command options dir s
  Made-Jailed command options dir paths s only (x, policy, before, confined, built, same) =
      (x, paths, policy, before, confined, built, policy_calls-WritesIn dir paths only x.path, same)

  -- Every sandbox in which a Python program is run executes the tester's command for it, under the
  -- limits of the test, if the memory limit fits its type, and its policy makes no file and no
  -- directory writable but the device of random numbers and the temporary directory of the test.
  pub create_test_sandbox-Jailed :
      (input : Text) (options : TestOptions) (temp_path : Text) (w : World (library host tester))
      (s : SandboxWithOutputFds)
      → options.memory_limit_bytes < 2 ^ 63
      → (create_test_sandbox host tester input options temp_path w).0 ≡ ok s
      → Jailed (execution tester temp_path).0 options temp_path s
  unfolding create_test_sandbox execution
  create_test_sandbox-Jailed input options temp_path w s small h =
      Made-Jailed _ options temp_path (execution tester temp_path).1 s refl (
        create_sandbox_with_fds-Made (library host tester) _ input (execution tester temp_path).1
          options [] host.environ w s small h)

  -- The same of the sandbox in which a Python program is compiled, whose time limit is that of the
  -- compilation.
  pub create_compilation_sandbox-Jailed :
      (max_compilation_duration : ℕ) (temp_path : Text) (w : World (library host tester))
      (s : SandboxWithOutputFds)
      → (create_compilation_sandbox host tester max_compilation_duration temp_path w).0 ≡ ok s
      → Jailed
          (compilation tester temp_path).0
          (record default_options { max_execution_duration = max_compilation_duration })
          temp_path
          s
  unfolding create_compilation_sandbox compilation
  create_compilation_sandbox-Jailed max_compilation_duration temp_path w s h =
      Made-Jailed _ _ temp_path (compilation tester temp_path).1 s refl (
        create_sandbox_with_fds-Made (library host tester) _ [] (compilation tester temp_path).1 _
          [] host.environ w s (omega arith) h)
