-- ===== src/Policy.antt =====
-- `CreateBasePolicy` of execution/tester_sandboxer.cc: the sequence of calls on the policy builder.
-- What the builder makes of them is the sandbox library's; only the filters of single system calls
-- are given a meaning, that of the macros they are written in.
pub mod Writable
pub mod Filters
mod Examples
use code_contests.Prelude.{
  ℕ, ◌+◌, ◌%◌, ◌^◌, Bool, true, false, Option, ◌||◌, List, [], ◌∷◌, ◌++◌, map, ◌==◌, if◌then◌else◌,
  Text, codes,
}

-- ARG_32(i) or ARG(i), JEQ32(v, ALLOW) or JEQ(v, ALLOW), and JNE(v, JUMP) to the end of the filter.
pub data Instruction : Type 0 where
  arg_32 : ℕ → Instruction
  arg : ℕ → Instruction
  jeq_allow : ℕ → Instruction
  jne_end : ℕ → Instruction

pub data Call : Type 0 where
  allow_syscall : Text → Call
  allow_syscalls : List Text → Call
  allow : Text → Call  -- AllowExit and the like, by their names
  add_policy_on_syscall : Text → List Instruction → Call
  add_file : Text → Bool → Call  -- the second is is_ro
  add_directory : Text → Bool → Call
  add_file_at : Text → Text → Call  -- outside and inside path, read-only
  add_libraries_for_binary : Text → Call
  collect_stacktraces : Text → Bool → Call

pub record Mappings : Type 0 where
  pub ro_files : List Text
  pub rw_files : List Text
  pub ro_dirs : List Text
  pub rw_dirs : List Text

abbrev is_absolute : Text → Bool
is_absolute [] = false
is_absolute (c ∷ s) = c == b'/'

abbrev ends_directory : Text → Bool
ends_directory [] = true
ends_directory (c ∷ []) = c == b'/'
ends_directory (c ∷ d ∷ s) = ends_directory (d ∷ s)

-- `a / b` of two paths
abbrev pub join_paths : Text → Text → Text
join_paths a b =
    if is_absolute b then b else if ends_directory a then a ++ b else a ++ codes "/" ++ b

-- internal::GetCurrentWorkingDirectory, with getcwd for a buffer of the given length; `none` is false.
unfoldable pub get_current_working_directory : (ℕ → Option Text) → Option Text
get_current_working_directory getcwd = getcwd (2 ^ 16)

abbrev pub prot_none : ℕ
prot_none = 0

abbrev pub prot_read : ℕ
prot_read = 1

abbrev pub prot_write : ℕ
prot_write = 2

abbrev pub prot_exec : ℕ
prot_exec = 4

-- Disjoint flags: `|` is `+`.
abbrev pub mprotect_filter : List Instruction
mprotect_filter =
    arg_32 2
    ∷ jeq_allow (prot_read + prot_exec)
    ∷ jeq_allow (prot_read + prot_write)
    ∷ jeq_allow prot_read
    ∷ jeq_allow prot_none
    ∷ []

abbrev pub prlimit_filter : List Instruction
prlimit_filter = arg 0 ∷ jne_end 0 ∷ arg 2 ∷ jeq_allow 0 ∷ []

-- A filter on the arguments of a call, with what was loaded last; not to allow is the default.
pub allows : (ℕ → ℕ) → ℕ → List Instruction → Bool
allows args value [] = false
allows args value (arg_32 i ∷ rest) = allows args (args i % 2 ^ 32) rest
allows args value (arg i ∷ rest) = allows args (args i) rest
allows args value (jeq_allow v ∷ rest) = value == v || allows args value rest
allows args value (jne_end v ∷ rest) =
    let later = allows args value rest in if value == v then later else false

-- `defined` says which system calls the kernel's headers have (`#ifdef __NR_...`).
module _ (defined : Text → Bool) where
  abbrev if_defined : Text → List Text
  if_defined name = if defined name then name ∷ [] else []

  abbrev pub call_if_defined : Text → List Call
  call_if_defined name = if defined name then allow_syscall name ∷ [] else []

  abbrev pub startup_calls : List Call
  startup_calls =
      call_if_defined (codes "readlink")
      ++ allow_syscall (codes "readlinkat")
        ∷ allow (codes "AllowExit")
        ∷ allow (codes "AllowGetIDs")
        ∷ allow (codes "AllowGetRandom")
        ∷ allow (codes "AllowWipeOnFork")
        ∷ allow (codes "AllowHandleSignals")
        ∷ allow (codes "AllowOpen")
        ∷ allow (codes "AllowRead")
        ∷ allow (codes "AllowReaddir")
        ∷ allow (codes "AllowStat")
        ∷ allow (codes "AllowStaticStartup")
        ∷ allow (codes "AllowTcMalloc")
        ∷ allow (codes "AllowTime")
        ∷ allow (codes "AllowWrite")
        ∷ allow (codes "AllowSafeFcntl")
        ∷ allow_syscalls (codes "gettid" ∷ codes "getpid" ∷ [])
        ∷ allow_syscall (codes "sched_yield")
        ∷ allow_syscall (codes "sched_getaffinity")
        ∷ []

  abbrev file_syscalls : List Text
  file_syscalls =
      if_defined (codes "access")
      ++ (codes "faccessat"
          ∷ codes "close"
          ∷ codes "lseek"
          ∷ codes "getcwd"
          ∷ codes "pipe2"
          ∷ codes "ioctl"
          ∷ (if_defined (codes "unlink")
              ++ (codes "unlinkat"
                  ∷ codes "dup"
                  ∷ (if_defined (codes "poll") ++ (codes "ppoll" ∷ codes "statx" ∷ [])))))

  abbrev event_syscalls : List Text
  event_syscalls =
      codes "eventfd2"
      ∷ codes "epoll_create1"
      ∷ codes "epoll_ctl"
      ∷ codes "epoll_pwait"
      ∷ if_defined (codes "epoll_wait")

  abbrev socket_syscalls : List Text
  socket_syscalls =
      codes "setsockopt"
      ∷ codes "bind"
      ∷ codes "listen"
      ∷ codes "accept4"
      ∷ codes "connect"
      ∷ codes "shutdown"
      ∷ codes "getsockopt"
      ∷ codes "getsockname"
      ∷ []

  -- `clone_flags`, `set_name` and `madv_free` are the values of the constants in the source.
  module _ (clone_flags set_name madv_free : ℕ) where
    abbrev pub syscall_calls : List Call
    syscall_calls =
        allow_syscalls file_syscalls
        ∷ allow_syscalls event_syscalls
        ∷ allow_syscalls (codes "sysinfo" ∷ [])
        ∷ allow_syscall (codes "mmap")
        ∷ add_policy_on_syscall (codes "mprotect") mprotect_filter
        ∷ allow_syscalls socket_syscalls
        ∷ add_policy_on_syscall (codes "clone") (arg_32 0 ∷ jeq_allow clone_flags ∷ [])
        ∷ allow_syscalls (codes "futex" ∷ codes "munlock" ∷ [])
        ∷ add_policy_on_syscall (codes "prctl") (arg_32 0 ∷ jeq_allow set_name ∷ [])
        ∷ allow_syscalls (codes "nanosleep" ∷ codes "clock_getres" ∷ [])
        ∷ add_policy_on_syscall (codes "prlimit64") prlimit_filter
        ∷ add_policy_on_syscall (codes "madvise") (arg_32 2 ∷ jeq_allow madv_free ∷ [])
        -- AddFile without is_ro is read-only
        ∷ add_file (codes "/proc/version") true
        ∷ add_file (codes "/proc/cpuinfo") true
        ∷ add_file (codes "/proc/stat") true
        ∷ []

    abbrev pub mapping_calls : Text → Mappings → List Call
    mapping_calls cwd m =
        map (λ f. add_file (join_paths cwd f) true) m.ro_files
        ++ (map (λ f. add_file (join_paths cwd f) false) m.rw_files
            ++ (map (λ d. add_directory (join_paths cwd d) true) m.ro_dirs
                ++ map (λ d. add_directory (join_paths cwd d) false) m.rw_dirs))

    abbrev pub closing_calls : Text → List Call
    closing_calls binary =
        add_libraries_for_binary binary
        ∷ allow (codes "AllowLlvmSanitizers")
        ∷ collect_stacktraces (codes "Violation") false
        ∷ collect_stacktraces (codes "Signal") false
        ∷ collect_stacktraces (codes "Timeout") false
        ∷ collect_stacktraces (codes "Kill") false
        ∷ []

    -- `cwd` is the working directory; without one the program is ended by CHECK.
    unfoldable pub create_base_policy : Text → Text → Mappings → List Call
    create_base_policy cwd binary m =
        startup_calls ++ (syscall_calls ++ (mapping_calls cwd m ++ closing_calls binary))
