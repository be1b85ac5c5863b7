-- ===== src/System/Verdicts.antt =====
-- What the verdicts of a test of a Python program say, with the comparison that `Test` uses unless
-- another is given.
use code_contests.Prelude.{
  ℕ, ◌<◌, ◌^◌, ◌≡◌, sym, ap, ◌∙◌, ◌⊎◌, ◌↔◌, inl, inr, Bool, true, some, List, get_elem?,
  get_elem?_lt, Text, if◌then◌else◌, arith,
}
use code_contests.Status.{StatusOr, ok}
use code_contests.Absl.{Absl}
use code_contests.Results.{ExecutionResult, MultiTestResult, success}
use code_contests.Outputs.{Strings, Numbers, outputs_match}
use code_contests.Outputs.Words.{Words, lower_words, words_of}
use code_contests.Outputs.Matching.{AllMatch, outputs_match_iff}
use code_contests.Runner.Task.{Job, TestOptions, text_at, judge, checking_outputs, matches}
use code_contests.Runner.{Returns}
use code_contests.Host.{Host}
use code_contests.Launch.{World}
use code_contests.Launch.Outputs.{ReceivesApart}
use code_contests.Python.{PyTesterSandboxer}
use code_contests.Python.Calls.{library}
use code_contests.System.{python_job}
use code_contests.System.Accounts.{JailedRun, Explained, python_accounts}

-- In lowercase the texts have the same words, or words that match one by one.
abbrev pub Alike : Numbers → Text → Text → Type 0
Alike numbers s t =
    (ws : List Text) × (vs : List Text) × Words s ws
    × Words t vs
    × ((lower_words ws ≡ lower_words vs) ⊎ AllMatch numbers (lower_words ws) (lower_words vs))

outputs_match-Alike :
    (strings : Strings) (numbers : Numbers) (s t : Text)
    → (outputs_match strings numbers s t ≡ true) ↔ Alike numbers s t
outputs_match-Alike strings numbers s t =
    let (ws, p) = words_of s in
    let (vs, q) = words_of t in
    (
      λ h. (ws, vs, p, q, (outputs_match_iff strings numbers s t ws vs p q).0 h),
      λ (ws', vs', p', q', h). (outputs_match_iff strings numbers s t ws' vs' p' q').1 h,
    )

judge-passed :
    (j : Job) (i : ℕ) (x : ExecutionResult)
    → checking_outputs j ≡ true
    → (judge j i x).passed ≡ some (matches j i x)
unfolding judge
judge-passed j i x h =
    ap (λ b. (if b then record x { passed = some (matches j i x) } else x).passed) h

module _ (absl : Absl) (host : Host) (tester : PyTesterSandboxer) (options : TestOptions)
    (temp_path : Text) (Begins : World (library host tester) → Type 0) (inputs expected : List Text)
    (strings : Strings) (numbers : Numbers) where
  abbrev pub compared : Job
  compared =
      python_job absl host tester options temp_path Begins inputs expected
        (outputs_match strings numbers)

  -- The verdict `b` at place `i` is that of a run on this input, from a world in which a test may
  -- begin.
  abbrev pub Judges : ℕ → Bool → Type 0
  Judges i b =
      (x₀ : ExecutionResult) × JailedRun absl host tester options temp_path Begins
        (text_at inputs i) x₀
      × ((b ≡ true) ↔ Alike numbers x₀.stdout (text_at expected i))

  Explained-Judges :
      (rs : List ExecutionResult) (i : ℕ) (x : ExecutionResult) (b : Bool)
      → checking_outputs compared ≡ true
      → get_elem? rs i ≡ some x
      → x.passed ≡ some b
      → Explained absl host tester options temp_path Begins inputs expected
          (outputs_match strings numbers)
          rs
          i
      → Judges i b
  Explained-Judges rs i x b checking at v (y, at', inr (empty, _)) =
      absurd (cc (sym (ap (λ (z : ExecutionResult). z.passed) empty)))
  Explained-Judges rs i x b checking at v (y, at', inl (x₀, ran, e)) =
      let (to, from) = outputs_match-Alike strings numbers x₀.stdout (text_at expected i) in
      let stored : x ≡ judge compared i x₀ = cc (sym at ∙ at') in
      let same : b ≡ matches compared i x₀ = cc (
        sym v
        ∙ ap (λ (z : ExecutionResult). z.passed) stored
        ∙ judge-passed compared i x₀ checking) in
      (x₀, ran, (λ h. to (sym same ∙ h), λ a. same ∙ from a))

  -- A verdict of `Test` for a Python program can be trusted. With at least one thread, a memory
  -- limit that fits its type, descriptors that differ and expected outputs, let `Test` return a
  -- value whose compilation succeeded. Behind each verdict in it there is a run of the program on
  -- this very input, from a world in which a test may begin, confined to its sandbox, and the verdict is positive exactly if what this run
  -- printed and what is expected for this input have the same words in lowercase, or as many words
  -- that match one by one.
  pub python_verdicts :
      {W : Type 0} (compile_code : ℕ → W → StatusOr ExecutionResult × W) (pause : W → W) (w : W)
      (m : MultiTestResult) (i : ℕ) (x : ExecutionResult) (b : Bool)
      → 0 < options.num_threads
      → options.memory_limit_bytes < 2 ^ 63
      → ReceivesApart (library host tester)
      → checking_outputs compared ≡ true
      → Returns compile_code pause compared w (ok m)
      → m.compilation_result.program_status ≡ success
      → get_elem? m.test_results i ≡ some x
      → x.passed ≡ some b
      → Judges i b
  python_verdicts compile_code pause w m i x b threads small apart checking r good at v =
      let (len, each) =
        python_accounts absl host tester options temp_path Begins inputs expected
          (outputs_match strings numbers) compile_code pause w m threads small apart r good in
      Explained-Judges m.test_results i x b checking at v
        (each i (omega (arith, get_elem?_lt m.test_results i at, len)))
