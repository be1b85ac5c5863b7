-- ===== src/Host/Examples.antt =====
-- A host that numbers descriptors, whose sandboxes print "hi" to both outputs and end well.
use code_contests.Prelude.{
  ℕ, ◌+◌, ◌≡◌, refl, true, false, none, some, [], ◌∷◌, ◌++◌, length, replicate, codes,
}
use code_contests.Status.{ok}
use code_contests.Descriptors.{bytes}
use code_contests.Results.{FinalStatus}
use code_contests.Policy.{get_current_working_directory}
use code_contests.Host.{Host}
use code_contests.Launch.{World}
use code_contests.Python.{PyTesterSandboxer, py3_tester}
use code_contests.Python.Calls.{library}

pub home_is_current :
    get_current_working_directory (λ length. some (codes "/home")) ≡ some (codes "/home")
unfolding get_current_working_directory
home_is_current = refl

-- The state is the number of the next descriptor. The compiled program is always the same.
abbrev pub host : Host
host = record {
  State = ℕ;
  Policy = Unit {0};
  sanitizers_any = false;
  create_with_size = λ n next. (ok next, next + 1);
  copy_data = λ fd s next. next;
  destroy_buffer = λ fd next. next;
  receive_fd = λ fd next. (next, next + 1);
  try_build = λ calls next. (ok tt, next);
  make_sandbox = λ executor policy next. (next, next + 1);
  run_async = λ sandbox next. (true, next);
  set_walltime_limit = λ sandbox limit next. next;
  await_result = λ sandbox next.
      (record { final_status = FinalStatus.ok; reason_code = 0; text = codes "OK" }, next);
  dup = λ fd next. (next, next + 1);
  now = λ next. (0, next);
  environ = [];
  getcwd = λ length. some (codes "/home");
  working_directory = codes "/home";
  is_current = home_is_current;
  rlim64_infinity = 18446744073709551615;
  defined = λ name. true;
  clone_flags = 4001536;
  pr_set_name = 15;
  madv_free = 8;
  write_file = λ path text next. next;
  exists = λ path next. some true;
  entries = λ path next. none;
  copy_file = λ from to next. none;
  contents = λ path next.
      replicate 32 1 ++ 7 ∷ 200 ∷ codes "/tmp/1642000000000-17-40/code.py" ++ codes "rest";
  fingerprint = length;
}

abbrev pub tester : PyTesterSandboxer
tester = py3_tester (codes "/usr/bin/python3") []

abbrev pub at_start : World (library host tester)
at_start = record {
  state = 3;
  os = record { reads = λ fd. bytes (codes "hi") ∷ bytes [] ∷ []; closes = λ fd. 0 };
  received = [];
}
