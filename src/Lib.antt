-- ===== src/Lib.antt =====
-- Verification of the test execution of code_contests: compiling a program, running it on inputs in a
-- sandbox on several threads, and comparing what it prints with what is expected.
--
-- Parts and files. Paths are from the repository's root.
--
--   Status       execution/status_macros.h: ASSIGN_OR_RETURN is `>>=`, RETURN_IF_ERROR is `>>`. The
--                status types of abseil are data types with the codes that the program uses.
--   Absl         What the program takes from abseil on statuses and texts: Substitute,
--                Status::Update, and what is left in a StatusOr that was moved from. A parameter.
--   Retry        execution/tester_sandboxer.cc: RetryIfFail. The world that an attempt changes is a
--                parameter, and so is the pause.
--   Descriptors  The same file: BlockingRead and ReadFd. The operating system is the list of the
--                results that the next calls of read(2) give.
--   Sandbox      The same file and execution/tester_sandboxer.h: UseCacheOrReadAndClose and the class
--                SandboxWithOutputFds. `Os` holds the results of the reads and counts, for each
--                descriptor, how often it was closed. Sandbox.Ownership puts objects in a store and
--                records which descriptors were given to constructors.
--   Results      The same files: ProgramStatus, ExecutionResult, MultiTestResult, the two functions
--                ExecutionResultFrom...SandboxResult, SandboxResultStatus and the two operators <<.
--   Outputs      The same file: SplitAndLowercase, ValuesMatch, OutputsMatch. The string functions
--                of abseil, and doubles with their arithmetic, are parameters. Outputs.Words says
--                without them what the words of a text are.
--   Pool         execution/simple_threadpool.h: ThreadPool as a step relation. A step is a section
--                under the lock, or a step of a task. A state is reached by any interleaving. What
--                a task does is a parameter, the record `Tasks`.
--   Runner       execution/tester_sandboxer.cc: TesterSandboxer::Test. Runner.Task has the function
--                that Test schedules for each input, each section under output_mutex one step;
--                `Returns` composes the guards, the compilation with RetryIfFail, the pool with one
--                task for each input, and the collection of the results. Runner.Loop and
--                Runner.Determined describe it without a pool: as a loop, and as a plain function.
--   Launch       The same file: CreateSandboxWithFds, which makes a sandbox with its limits, its
--                standard input and the descriptors of its outputs. Buffers, ReceiveFd, dup and the
--                virtual CreatePolicy are parameters, over a state of their own.
--   Execution    The same file: RunCodeOnInput. Its two readers are tasks of `Pool`; the sandbox, the
--                clock and the virtual CreateTestSandbox are parameters. Execution.Sequential describes
--                it as a function without threads.
--   Policy       The same file: CreateBasePolicy as the sequence of its calls on the policy builder.
--                Which system calls the kernel's headers define, and the values of three constants,
--                are parameters.
--   Host         What the Python testers take from the sandbox library, the system, the file system
--                and farmhash, over one state. A parameter.
--   Python       execution/py_tester_sandboxer.{h,cc}: the commands of the Python testers
--                (`Python`), CreatePolicy and CreateTestSandbox (`Python.Calls`), how a binary
--                becomes a hash (`Python`), and CompileCode (`Python.Compile`) as a sequence of
--                actions (`Python.Action`): each goes on with a value, returns an error or throws,
--                and the sandbox object is destroyed in the end.
--   System       RunCodeOnInput in the sandboxes of a Python tester, as the runs of the tasks of
--                Test: `Runner`, `Execution`, `Launch`, `Policy` and `Python` put together over a
--                `Host`. System.Whole is Test with its guards and with the TempPath that it makes;
--                System.Attempts has its attempts at CompileCode, whose exceptions nothing catches.
--   TempPath     execution/temp_path.h: the constructor of TempPath. The clock, the random number and
--                the creation of the directory are parameters.
--   Problems     execution/solve_example.cc, execution/py_locations.cc, print_names.cc and
--                contest_problem.proto: the tests of a problem, the inputs and outputs that the
--                example hands to Test, its reports, and the programs' main functions
--                (`Problems.Solve`). Test is a parameter there, whose results are those of `Runner`.
--   Matchers     execution/status_matchers.h: the gMock matchers for statuses.
--
-- How they interact. `Runner` instantiates `Pool` with the tasks of `Runner.Task` and uses `Retry`
-- for the compilation; Runner.Retrying relates the steps of a task to `Retry`. `Execution`
-- instantiates `Pool` a second time, with the two reads of `Sandbox`, which reads by `Descriptors`.
-- `Python.Calls.library` fills the interface `Launch.Library` with a host and the Python tester's
-- CreatePolicy, `System.machine_of` fills `Execution.Machine`, `System.python_job` fills
-- `Runner.Task.Job`, and `Problems.Solve.Testing` is what the example asks of Test. `Results` is the
-- data that `Runner` publishes. `Outputs.outputs_match` is the default of the comparison that `Runner`
-- takes as a parameter.
--
-- Bounds and fuel. `read_loop` runs on fuel; `read_fd` gives it one more than the number of calls in
-- the list, and each round uses up a call, so it never runs out. The loop of RetryIfFail is recursion
-- on the attempts left, at most three. A run of the pool has no fuel: it is finite by a measure.
-- Numbers are natural; a negative num_threads starts no thread, as 0 does; a time
-- limit is a number of nanoseconds that is not negative, and the memory limit is not negative. The
-- measured duration of a run is an integer, since the clock can be set back. Doubles are a parameter;
-- the literal 1e-5 is handed to them as the mantissa 1 and the exponent 5.
--
-- Not modelled. The sandbox itself, abseil, riegeli, farmhash, gMock and the operating system are
-- not part of the program: they are parameters. In `Runner` CompileCode is a parameter that returns
-- a result, as for any subclass; `Python.Compile` has the one of the Python testers, which can also
-- throw; System.Attempts puts it into the retries of Test, where an exception ends the process. The temporary path is an argument of both; System.Whole makes it by `TempPath`. That a process
-- knows its current directory, without which CHECK ends it, is a law of `Host`. The parsing of the
-- command line and the reading of the files are left out of the main functions; the tests of the
-- program, its build files and its Python script have no model.
pub mod Prelude
pub mod Status
pub mod Absl
pub mod Retry
pub mod Descriptors
pub mod Sandbox
pub mod Results
pub mod Pool
pub mod Runner
pub mod Outputs
pub mod Host
pub mod Matchers
pub mod TempPath
pub mod System
pub mod Policy
pub mod Python
pub mod Execution
pub mod Launch
pub mod Problems
