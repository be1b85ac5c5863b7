-- ===== src/Launch/Examples.antt =====
-- A kernel that numbers descriptors, and two launches with it: one with a policy, one without.
use code_contests.Prelude.{
  ℕ, ◌+◌, ◌≡◌, refl, false, some, [], ◌∷◌, Text, codes, arith, text_eq, if◌then◌else◌,
}
use code_contests.Status.{StatusOr, ok, error, internal}
use code_contests.Sandbox.{SandboxWithOutputFds, construct}
use code_contests.Runner.Task.{default_options}
use code_contests.Launch.{
  Library, World, Paths, create_sandbox_with_fds, provide_stdin, receive, finish,
}
use code_contests.Launch.Balance.{Balanced, create_sandbox_with_fds-balance}
use code_contests.Launch.Bounds.{Made, create_sandbox_with_fds-Made}

-- The state is the number of the next descriptor. Only python has a policy.
abbrev kernel : Library
kernel = record {
  State = ℕ;
  Policy = Text;
  sanitizers_any = false;
  rlim64_infinity = 18446744073709551615;
  create_with_size = λ n next. (ok next, next + 1);
  copy_data = λ fd s next. next;
  dup = λ fd next. (next, next + 1);
  destroy_buffer = λ fd next. next;
  receive_fd = λ fd next. (next, next + 1);
  create_policy = λ path paths next.
      (if text_eq path (codes "python") then ok path else error internal (codes "no policy"), next);
  make_sandbox = λ executor policy next. (next, next + 1);
}

abbrev at_start : World kernel
at_start = record { state = 3; os = record { reads = λ fd. []; closes = λ fd. 0 }; received = [] }

abbrev paths : Paths
paths = record { ro_files = []; ro_dirs = []; rw_dirs = codes "/tmp/1642000000000-17-40" ∷ [] }

abbrev launch : Text → Text → StatusOr SandboxWithOutputFds × World kernel
launch program stdin_data =
    create_sandbox_with_fds kernel (program ∷ codes "code.py" ∷ []) stdin_data paths default_options
      [] [] at_start

launch-python : (launch (codes "python") []).0 ≡ ok (construct (some 6) (some 4) (some 5))
unfolding create_sandbox_with_fds provide_stdin receive finish text_eq
launch-python = refl

launch-with_stdin :
    (launch (codes "python") (codes "17")).0 ≡ ok (construct (some 7) (some 5) (some 6))
unfolding create_sandbox_with_fds provide_stdin receive finish text_eq
launch-with_stdin = refl

-- The standard input is closed, the outputs are not.
launch-ruby : (launch (codes "ruby") []).1.received ≡ 5 ∷ 4 ∷ 3 ∷ []
unfolding create_sandbox_with_fds provide_stdin receive finish text_eq
launch-ruby = refl

create_sandbox_with_fds-balance_example :
    Balanced kernel 4 paths at_start (launch (codes "ruby") [])
create_sandbox_with_fds-balance_example =
    create_sandbox_with_fds-balance kernel 4 (codes "ruby" ∷ codes "code.py" ∷ []) [] paths
      default_options [] [] at_start

python-Made :
    Made kernel
      (codes "python" ∷ codes "code.py" ∷ [])
      default_options
      paths
      (construct (some 6) (some 4) (some 5))
python-Made =
    create_sandbox_with_fds-Made kernel (codes "python" ∷ codes "code.py" ∷ []) [] paths
      default_options [] [] at_start (construct (some 6) (some 4) (some 5)) (omega arith)
      launch-python
