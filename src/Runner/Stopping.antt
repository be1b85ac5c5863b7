-- ===== src/Runner/Stopping.antt =====
-- How soon `Test` stops at a failure.
use code_contests.Prelude.{
  ℕ, ◌+◌, ◌≤◌, true, false, ◌≡◌, ◌≢◌, Text, refl, sym, ap, inl, inr, none, some, List, [], ◌∷◌,
  length, length-set, get_elem?, set, total, total-set, Bool-cases, arith, subst,
}
use code_contests.Status.{StatusOr, ok, err}
use code_contests.Results.{ExecutionResult, MultiTestResult, default_result}
use code_contests.Pool.{
  Worker, waiting, running, exited, Pool, Step, schedules, closes, takes, stops, works, returns,
  Reach, started, step,
}
use code_contests.Pool.Weights.{total-replicate_zero}
use code_contests.Pool.Invariant.{Reach-Inv}
use code_contests.Runner.Task.{
  nonempty, Job, Shared, Local, Move, publish, judge, stops_all, checking_outputs, tasks,
}
use code_contests.Runner.Tracking.{Leaves, Move-Leaves}
use code_contests.Runner.Run.{input_count, all_tasks}
use code_contests.Runner.Beginning.{early_result, check_arguments_iff}
use code_contests.Runner.Compiling.{begun-result}
use code_contests.Runner.Correctness.{collect_ok}
use code_contests.Runner.{fresh, Returns, early, tested}
use code_contests.Runner.Weights.{
  negative_le, failing, value_of, in_hand, at_work, at_work_le, total-le-length, total-set_le,
  Move-same, Move-in_hand,
}

module _ (j : Job) where
  -- The results that failed, and the threads that may still add one.
  record Bounded (n : ℕ) (workers : List (Worker ℕ Local)) (s : Shared) : Type 0 where
    quiet : s.should_stop ≡ false → total failing s.test_results ≡ 0
    few : total failing s.test_results + total at_work workers ≤ n

  module _ (stopping : j.options.stop_on_first_failure ≡ true)
      (checks : checking_outputs j ≡ true) where
    judge-goes_on :
        (t : ℕ) (x : ExecutionResult) → stops_all j t x ≡ false → failing (judge j t x) ≡ 0
    unfolding stops_all judge
    judge-goes_on t x h = ground (arith, stopping, checks)

    publish-Bounded :
        (n : ℕ) (before after : List (Worker ℕ Local)) (s : Shared) (t : ℕ)
        (r : StatusOr ExecutionResult)
        → total at_work after + value_of r ≡ total at_work before
        → Bounded n before s
        → Bounded n after (publish j t r s)
    unfolding publish
    publish-Bounded n before after s t (err e) h b = record {
      quiet = λ q. absurd (cc);
      few = omega (arith, b.few, h);
    }
    publish-Bounded n before after s t (ok x) h b =
        let grows = total-set_le failing s.test_results t (judge j t x) in
        record {
          quiet = λ q. elim (Bool-cases (stops_all j t x)) [
            | inl now ↦ absurd (ground arith)
            | inr later ↦ omega (arith, grows, judge-goes_on t x later, b.quiet (ground arith))
          ];
          few = omega (arith, b.few, h, grows, negative_le (judge j t x).passed);
        }

    Leaves-Bounded :
        (n : ℕ) (before after : List (Worker ℕ Local)) (s s' : Shared) (t : ℕ)
        (r : StatusOr ExecutionResult)
        → total at_work after + value_of r ≡ total at_work before
        → Bounded n before s
        → Leaves j s t r s'
        → Bounded n after s'
    Leaves-Bounded n before after s s' t r h b (inl (_, e)) =
        subst (Bounded n after) (sym e) (record { quiet = b.quiet; few = omega (arith, b.few, h) })
    Leaves-Bounded n before after s s' t r h b (inr (_, e)) =
        subst (Bounded n after) (sym e) (publish-Bounded n before after s t r h b)

    module _ {n : ℕ} {ws : List (Worker ℕ Local)} {u : Shared} (size : length ws ≡ n)
        (b : Bounded n ws u) where
      -- A thread that comes to no more work.
      replaced :
          (i : ℕ) (v w : Worker ℕ Local)
          → get_elem? ws i ≡ some v
          → at_work w ≤ at_work v
          → Bounded n (set ws i w) u
      replaced i v w e h = record {
        quiet = b.quiet;
        few = omega (arith, b.few, total-set at_work ws i v w e, h);
      }

      works-Bounded :
          (i : ℕ) {t : ℕ} {l l' : Local} {s : Shared}
          → get_elem? ws i ≡ some (running t l)
          → Move j u t l s (some l')
          → Bounded n (set ws i (running t l')) s
      works-Bounded i {t} {l} {l'} e m =
          subst (Bounded n (set ws i (running t l'))) (sym (Move-same j m))
            (elim (Bool-cases u.should_stop) [
              | inl stop ↦ replaced i (running t l) (running t l') e (Move-in_hand j stop m)
              | inr on ↦ record {
                quiet = b.quiet;
                few = omega (
                  arith,
                  b.quiet on,
                  size,
                  length-set ws i (running t l'),
                  total-le-length at_work at_work_le (set ws i (running t l')),
                );
              }
            ])

      returns-Bounded :
          (i : ℕ) {t : ℕ} {l : Local} {s : Shared}
          → get_elem? ws i ≡ some (running t l)
          → Move j u t l s none
          → Bounded n (set ws i waiting) s
      returns-Bounded i {t} {l} {s} e m =
          let (r, at, lv) = Move-Leaves j m in
          Leaves-Bounded n ws (set ws i waiting) u s t r
            (omega (arith, total-set at_work ws i (running t l) waiting e, ap in_hand at)) b lv

    Step-Bounded :
        {n : ℕ} {p q : Pool (tasks j)}
        → length p.workers ≡ n
        → Bounded n p.workers p.shared
        → Step (tasks j) p q
        → Bounded n q.workers q.shared
    Step-Bounded size b (schedules e) = b
    Step-Bounded size b (closes e o) = b
    Step-Bounded size b (takes i {t} e q) =
        replaced size b i waiting (running t ((tasks j).begin t)) e (omega arith)
    Step-Bounded size b (stops i e q) = replaced size b i waiting exited e (omega arith)
    Step-Bounded size b (works i e m) = works-Bounded size b i e m
    Step-Bounded size b (returns i e m) = returns-Bounded size b i e m

    Reach-Bounded :
        {n : ℕ} {p : Pool (tasks j)}
        → Reach (tasks j) n (all_tasks j) (fresh (input_count j)) p
        → Bounded n p.workers p.shared
    Reach-Bounded {n} started =
        let none_yet = total-replicate_zero failing (input_count j) default_result refl in
        record {
          quiet = λ q. none_yet;
          few = omega (arith, none_yet, total-replicate_zero at_work n waiting refl);
        }
    Reach-Bounded (step r st) = Step-Bounded (Reach-Inv (tasks j) r).size (Reach-Bounded r) st

module _ {W : Type 0} (compile_code : ℕ → W → StatusOr ExecutionResult × W) (pause : W → W)
    (j : Job) (w : W) where
  few_failing :
      (r : StatusOr MultiTestResult) (m : MultiTestResult)
      → j.options.stop_on_first_failure ≡ true
      → Returns compile_code pause j w r
      → r ≡ ok m
      → total failing m.test_results ≤ j.options.num_threads
  few_failing r m stopping (early {w' = w'} e) g =
      let (_, empty) = early_result compile_code pause j w r w' m e g in
      omega (arith, ap (total failing) empty)
  few_failing r m stopping (tested {c} {w' = w'} {p = p} e reach joined) g =
      let (fine, same, _) = collect_ok j c p.shared m g in
      let (accepted, _, _) = begun-result compile_code pause j w c w' e in
      let checks = checks_of j.expected (((check_arguments_iff j).0 accepted).1 stopping) in
      omega (arith, ap (total failing) same, (Reach-Bounded j stopping checks reach).few)
    where
      checks_of : (ts : List Text) → ts ≢ [] → nonempty ts ≡ true
      checks_of [] h = absurd (h refl)
      checks_of (t ∷ ts) h = refl

  -- Early stopping is prompt: if testing stops at the first failure, a value that `Test` returns has
  -- at most as many results with a negative verdict as there are threads, however many inputs there
  -- are and however the threads are scheduled.
  pub total-failing_le :
      (m : MultiTestResult)
      → j.options.stop_on_first_failure ≡ true
      → Returns compile_code pause j w (ok m)
      → total failing m.test_results ≤ j.options.num_threads
  total-failing_le m stopping r = few_failing (ok m) m stopping r refl
