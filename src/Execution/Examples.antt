-- ===== src/Execution/Examples.antt =====
-- A machine whose sandboxes print "hello" and end well, and a run on it in which the reader of stderr
-- takes its task first.
mod Sequential
use code_contests.Prelude.{
  subst, ℕ, ◌+◌, ◌≡◌, refl, true, none, some, List, [], ◌∷◌, ◌==◌, if◌then◌else◌, codes, arith,
}
use code_contests.Prelude.Int.{pos}
use code_contests.Status.{StatusOr, ok}
use code_contests.Absl.Examples.{plain_absl}
use code_contests.Descriptors.{ReadOutcome, bytes, is_interruption, read_fd}
use code_contests.Results.{default_result, success, FinalStatus, from_test}
use code_contests.Sandbox.{Os, SandboxWithOutputFds, stdout, stderr, update, close, destroy}
use code_contests.Sandbox.Caching.{Apart}
use code_contests.Sandbox.Ownership.{owns}
use code_contests.Pool.{
  Pool, Worker, Reach, Joined, started, step, schedules, closes, takes, stops, returns,
}
use code_contests.Execution.{
  Machine, reads_stdout, reads_stderr, before_reading, readers, has_read_stdout, has_read_stderr,
  Returns, finished, completed, assemble,
}
use code_contests.Execution.Laws.{Returns-unique, Returns-closes}

abbrev pipes : ℕ → List ReadOutcome
pipes d = if d == 5 then bytes (codes "hello") ∷ bytes [] ∷ [] else bytes [] ∷ []

abbrev fresh : Os
fresh = record { reads = pipes; closes = λ _. 0 }

abbrev made : SandboxWithOutputFds
made = record {
  sandbox = some 1;
  stdout_fd = some 5;
  stderr_fd = some 6;
  stdout_cache = none;
  stderr_cache = none;
}

-- The clock is the state.
abbrev machine : Machine
machine = record {
  State = ℕ;
  now = λ t. (t, t + 1);
  run_async = λ sandbox t. (true, t + 5);
  set_walltime_limit = λ sandbox limit t. t;
  await_result = λ sandbox t.
      (record { final_status = FinalStatus.ok; reason_code = 0; text = codes "OK" }, t + 7);
}

abbrev create : ℕ × Os → StatusOr SandboxWithOutputFds × (ℕ × Os)
create w = (ok made, w)

abbrev err_read : SandboxWithOutputFds
err_read = record made { stderr_fd = none; stderr_cache = some (ok []) }

abbrev after_err : Os
after_err = close 6 (record fresh { reads = update pipes 6 [] })

reads_nothing : stderr plain_absl made fresh ≡ some (ok [], err_read, after_err)
unfolding stderr is_interruption read_fd
reads_nothing = refl

abbrev both_read : SandboxWithOutputFds
both_read = record err_read { stdout_fd = none; stdout_cache = some (ok (codes "hello")) }

abbrev after_both : Os
after_both = close 5 (record after_err { reads = update after_err.reads 5 [] })

reads_hello :
    stdout plain_absl err_read after_err ≡ some (ok (codes "hello"), both_read, after_both)
unfolding stdout is_interruption read_fd
reads_hello = refl

abbrev last : Pool (readers plain_absl)
last = record {
  backlog = [];
  closed = true;
  queue = [];
  workers = Worker.exited ∷ Worker.exited ∷ [];
  shared = record {
    object = both_read;
    os = after_both;
    stdout_contents = ok (codes "hello");
    stderr_contents = ok [];
  };
  returned = reads_stdout ∷ reads_stderr ∷ [];
}

-- Both tasks are taken; the second thread, with stderr, finishes first.
reach_last :
    Reach (readers plain_absl) 2 (reads_stdout ∷ reads_stderr ∷ []) (before_reading made fresh) last
reach_last =
    let scheduled =
      step (step (step started (schedules refl)) (schedules refl)) (closes refl refl) in
    let taken = step (step scheduled (takes 0 refl refl)) (takes 1 refl refl) in
    let read =
      step (step taken (returns 1 refl (has_read_stderr reads_nothing)))
        (returns 0 refl (has_read_stdout reads_hello)) in
    step (step read (stops 0 refl refl)) (stops 1 refl refl)

Joined-last : Joined (readers plain_absl) last
Joined-last = record { shut = refl; all_exited = (refl, (refl, tt)) }

Returns-hello :
    Returns plain_absl machine 10 create
      (0, fresh)
      (completed plain_absl machine 10 create 1 0 last.shared)
      (destroy both_read after_both)
Returns-hello = finished refl refl refl reach_last Joined-last

completed-hello :
    completed plain_absl machine 10 create 1 0 last.shared
    ≡ ok (record default_result {
      program_status = success;
      stdout = codes "hello";
      execution_duration = pos 13;
      sandbox_result = codes "OK";
    })
unfolding assemble from_test
completed-hello = refl

hello-Closes : (destroy both_read after_both).closes 5 ≡ fresh.closes 5 + owns 5 made
hello-Closes = Returns-closes plain_absl machine 10 create (0, fresh) made 0 refl Returns-hello 5

-- The same run with stdout first.
abbrev out_read : SandboxWithOutputFds
out_read = record made { stdout_fd = none; stdout_cache = some (ok (codes "hello")) }

abbrev after_out : Os
after_out = close 5 (record fresh { reads = update pipes 5 [] })

abbrev after_all : Os
after_all = close 6 (record after_out { reads = update after_out.reads 6 [] })

reads_hello_first : stdout plain_absl made fresh ≡ some (ok (codes "hello"), out_read, after_out)
unfolding stdout is_interruption read_fd
reads_hello_first = refl

reads_nothing_then : stderr plain_absl out_read after_out ≡ some (ok [], both_read, after_all)
unfolding stderr is_interruption read_fd
reads_nothing_then = refl

abbrev last_again : Pool (readers plain_absl)
last_again = record last {
  shared = record last.shared { os = after_all };
  returned = reads_stderr ∷ reads_stdout ∷ [];
}

reach_again :
    Reach
      (readers plain_absl)
      2
      (reads_stdout ∷ reads_stderr ∷ [])
      (before_reading made fresh)
      last_again
reach_again =
    let scheduled =
      step (step (step started (schedules refl)) (schedules refl)) (closes refl refl) in
    let taken = step (step scheduled (takes 1 refl refl)) (takes 0 refl refl) in
    let read =
      step (step taken (returns 1 refl (has_read_stdout reads_hello_first)))
        (returns 0 refl (has_read_stderr reads_nothing_then)) in
    step (step read (stops 0 refl refl)) (stops 1 refl refl)

Joined-again : Joined (readers plain_absl) last_again
Joined-again = record { shut = refl; all_exited = (refl, (refl, tt)) }

Returns-again :
    Returns plain_absl machine 10 create
      (0, fresh)
      (completed plain_absl machine 10 create 1 0 last_again.shared)
      (destroy both_read after_all)
Returns-again = finished refl refl refl reach_again Joined-again

made-Apart :
    (s : SandboxWithOutputFds) (t : ℕ) (os : Os)
    → create (0, fresh) ≡ (ok s, (t, os))
    → Apart s.stdout_fd s.stderr_fd
made-Apart s t os e =
    let same : made ≡ s = cc in
    subst (λ x. Apart x.stdout_fd x.stderr_fd) same (λ d p q. ground arith)

Returns-again_same :
    (completed plain_absl machine 10 create 1 0 last.shared
      ≡ completed plain_absl machine 10 create 1 0 last_again.shared)
    × (destroy both_read after_both ≡ destroy both_read after_all)
Returns-again_same =
    Returns-unique plain_absl machine 10 create (0, fresh) made-Apart Returns-hello Returns-again
