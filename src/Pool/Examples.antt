-- ===== src/Pool/Examples.antt =====
-- One thread and two tasks, each of which adds its number to a sum.
use code_contests.Prelude.{
  ℕ, ◌+◌, ◌≤◌, ◌<◌, ◌≡◌, refl, true, Option, none, some, List, [], ◌∷◌, ◌++◌, total, arith,
}
use code_contests.Pool.{
  Tasks, Pool, Worker, start_workers, schedules, closes, takes, stops, returns, Reach, started,
  step, Joined,
}
use code_contests.Pool.Weights.{carried}
use code_contests.Pool.Order.{ahead, begun_in_order}
use code_contests.Pool.Completion.{all_returned, no_threads}
use code_contests.Pool.Progress.{Live, Run, stay, go, can_join, Run-measure, measure}

data Add (s t : ℕ) (l : Unit {0}) (s' : ℕ) (o : Option (Unit {0})) : Type 0 where
  adds : s' ≡ s + t → o ≡ none → Add s t l s' o

abbrev adders : Tasks
adders = record { Task = ℕ; Local = Unit; Shared = ℕ; begin = λ _. tt; Move = Add }

adders-Live : Live adders
adders-Live s t l = (s + t, none, adds refl refl)

abbrev no_cost : Unit {0} → ℕ
no_cost l = 0

adders-falls : (s s' t : ℕ) (l l' : Unit {0}) → Add s t l s' (some l') → no_cost l' < no_cost l
adders-falls s s' t l l' (adds e o) = absurd (cc)

abbrev numbers : List ℕ
numbers = 4 ∷ 5 ∷ []

abbrev last : Pool adders
last = record {
  backlog = [];
  closed = true;
  queue = [];
  workers = Worker.exited ∷ [];
  shared = 9;
  returned = 5 ∷ 4 ∷ [];
}

abbrev Reached : Pool adders → Type 0
Reached = Reach adders 1 numbers 0

scheduled : Reached (record (start_workers adders 1 numbers 0) {
  backlog = [];
  closed = true;
  queue = some 4 ∷ some 5 ∷ none ∷ [];
})
scheduled = step (step (step started (schedules refl)) (schedules refl)) (closes refl refl)

reach_last : Reached last
reach_last =
    step
      (step
        (step (step (step scheduled (takes 0 refl refl)) (returns 0 refl (adds refl refl)))
          (takes 0 refl refl))
        (returns 0 refl (adds refl refl)))
      (stops 0 refl refl)

Joined-last : Joined adders last
Joined-last = record { shut = refl; all_exited = (refl, tt) }

all_returned_example : ((w : ℕ → ℕ) → total w last.returned ≡ total w numbers) × (last.queue ≡ [])
all_returned_example = all_returned adders (omega arith) reach_last Joined-last

abbrev idle : Pool adders
idle = start_workers adders 0 numbers 0

no_threads-idle : (idle.returned ≡ []) × (idle.shared ≡ 0)
no_threads-idle = no_threads adders {tasks = numbers} {s = 0} started

can_join_example :
    (q : Pool adders) × (m : ℕ) × Run adders (start_workers adders 1 numbers 0) m q
    × Joined adders q
can_join_example =
    can_join adders no_cost adders-falls {n = 1} {tasks = numbers} {s = 0} adders-Live started

abbrev first_step : Pool adders
first_step = record (start_workers adders 1 numbers 0) { backlog = 5 ∷ []; queue = some 4 ∷ [] }

measured_run :
    1 + measure adders no_cost adders-falls first_step
    ≤ measure adders no_cost adders-falls (start_workers adders 1 numbers 0)
measured_run =
    let run : Run adders (start_workers adders 1 numbers 0) 1 first_step =
      go (schedules refl) stay in
    Run-measure adders no_cost adders-falls run

-- One task is in the thread and the other is queued.
abbrev busy : Pool adders
busy = record {
  backlog = [];
  closed = true;
  queue = some 5 ∷ none ∷ [];
  workers = Worker.running 4 tt ∷ [];
  shared = 0;
  returned = [];
}

reach_busy : Reached busy
reach_busy = step scheduled (takes 0 refl refl)

begun_in_order_example :
    (begun : List ℕ) × (begun ++ ahead adders busy ≡ numbers)
    × ((w : ℕ → ℕ) → total w begun ≡ total (carried w) busy.workers + total w busy.returned)
begun_in_order_example = begun_in_order adders reach_busy
