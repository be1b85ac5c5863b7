-- ===== src/Python/Calls.antt =====
-- `PyTesterSandboxer::CreatePolicy` of execution/py_tester_sandboxer.cc, and the libraries as they
-- look to a sandbox of this tester.
use code_contests.Prelude.{ℕ, true, false, List, [], ◌∷◌, ◌++◌, map, Text, codes}
use code_contests.Host.{Host}
use code_contests.Policy.{
  Call, allow_syscall, add_file, add_directory, add_file_at, Mappings, join_paths, call_if_defined,
  create_base_policy,
}
use code_contests.Status.{StatusOr}
use code_contests.Sandbox.{SandboxWithOutputFds}
use code_contests.Runner.Task.{TestOptions, default_options}
use code_contests.Launch.{Library, Paths, World, create_sandbox_with_fds}
use code_contests.Python.{PyTesterSandboxer, compilation, execution}

-- internal::Mappings{.ro_files = ..., .ro_dirs = ..., .rw_dirs = ...}
abbrev pub mappings_of : Paths → Mappings
mappings_of p = record {
  ro_files = p.ro_files;
  rw_files = [];
  ro_dirs = p.ro_dirs;
  rw_dirs = p.rw_dirs;
}

module _ (host : Host) (tester : PyTesterSandboxer) where
  open host use {defined, working_directory, clone_flags, pr_set_name, madv_free}

  abbrev pub python_calls : Text → List Call
  python_calls binary_path =
      allow_syscall (codes "mprotect")
      ∷ allow_syscall (codes "mremap")
      ∷ (call_if_defined defined (codes "select")
          ++ (allow_syscall (codes "pselect6")
              ∷ (call_if_defined defined (codes "mkdir")
                  ++ (allow_syscall (codes "mkdirat")
                      ∷ (call_if_defined defined (codes "rename")
                          ++ (allow_syscall (codes "renameat")
                              ∷ allow_syscall (codes "renameat2")
                              ∷ add_file (codes "/dev/urandom") false
                              ∷ (map (λ path. add_directory path true) tester.library_paths
                                  ++ (add_file_at (join_paths working_directory binary_path)
                                        (codes "/dev/fd/1022")
                                      ∷ []))))))))

  -- The calls before TryBuild.
  unfoldable pub policy_calls : Text → Paths → List Call
  policy_calls binary_path paths =
      create_base_policy defined clone_flags pr_set_name madv_free working_directory binary_path
        (mappings_of paths)
      ++ python_calls binary_path

  -- The virtual CreatePolicy is this one.
  abbrev pub library : Library
  library = record {
    State = host.State;
    Policy = host.Policy;
    sanitizers_any = host.sanitizers_any;
    rlim64_infinity = host.rlim64_infinity;
    create_with_size = host.create_with_size;
    copy_data = host.copy_data;
    dup = host.dup;
    destroy_buffer = host.destroy_buffer;
    receive_fd = host.receive_fd;
    create_policy = λ path paths. host.try_build (policy_calls path paths);
    make_sandbox = host.make_sandbox;
  }

  -- `CreateTestSandbox`
  unfoldable pub create_test_sandbox :
      Text → TestOptions → Text → World library → StatusOr SandboxWithOutputFds × World library
  unfolding execution
  create_test_sandbox test_input options temp_path =
      let (command, paths) = execution tester temp_path in
      create_sandbox_with_fds library command test_input paths options [] host.environ

  -- The sandbox that CompileCode makes.
  unfoldable pub create_compilation_sandbox :
      ℕ → Text → World library → StatusOr SandboxWithOutputFds × World library
  unfolding compilation
  create_compilation_sandbox max_compilation_duration temp_path =
      let (command, paths) = compilation tester temp_path in
      create_sandbox_with_fds library command [] paths
        (record default_options { max_execution_duration = max_compilation_duration }) []
        host.environ
