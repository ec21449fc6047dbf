-- ===== src/Tests/Pools.antt =====
-- thread_pool.h at concrete inputs.
use hodgepodge.Prelude.{ℕ, ◌≡◌, refl, true, false, List, [], ◌∷◌, some}
use hodgepodge.ThreadPool.{
  inside, outside, asleep, exited, blocked, joining, Action, calls_enqueue, calls_stop_all, runs,
  finishes, Pool, can_take, can_enqueue, run, start, turn, act, move, take_task, run_worker,
  run_enqueue, run_notify, run_stop, run_notify_all, run_join,
}
use hodgepodge.ThreadPool.Invariant.{IsSound}
use hodgepodge.ThreadPool.History.{pool-IsSound}

abbrev one_thread : List (Unit {0})
one_thread = tt ∷ []

-- Thread 0 is the worker, thread 1 the client.
abbrev new_pool : Pool ℕ
new_pool = start 1 one_thread one_thread

runs_all : (p : Pool ℕ) → Pool ℕ
runs_all p = p

abbrev worker_sleeps : List (ℕ × Action ℕ)
worker_sleeps = (0, runs 0) ∷ []

abbrev sleeping_pool : Pool ℕ
sleeping_pool = record {
  tasks = [];
  stop = false;
  work_limits = 1;
  threads = asleep ∷ outside ∷ [];
  accepted = [];
  taken = [];
  late = false;
}

worker_sleeps_runs : run new_pool worker_sleeps ≡ some sleeping_pool
unfolding run start turn act run_worker can_take move
worker_sleeps_runs = refl

-- The client enqueues the task 7, the worker executes it, and the client stops the pool.
abbrev one_task : List (ℕ × Action ℕ)
one_task =
    (1, calls_enqueue 7)
    ∷ (1, runs 0)
    ∷ (1, runs 0)
    ∷ (0, runs 0)
    ∷ (0, finishes)
    ∷ (1, calls_stop_all)
    ∷ (1, runs 0)
    ∷ (0, runs 0)
    ∷ (1, runs 0)
    ∷ []

abbrev finished_pool : Pool ℕ
finished_pool = record {
  tasks = [];
  stop = true;
  work_limits = 1;
  threads = exited ∷ outside ∷ [];
  accepted = 7 ∷ [];
  taken = 7 ∷ [];
  late = false;
}

one_task_runs : run new_pool one_task ≡ some finished_pool
unfolding run start turn act run_worker can_take can_enqueue move take_task run_enqueue run_notify
    run_stop run_notify_all run_join
one_task_runs = refl

-- The task 7 enqueues 8 and 9 on a pool with a limit of 1 and one worker, and the client stops the pool.
abbrev nested : List (ℕ × Action ℕ)
nested =
    (1, calls_enqueue 7)
    ∷ (1, runs 0)
    ∷ (1, runs 0)
    ∷ (0, runs 0)
    ∷ (0, calls_enqueue 8)
    ∷ (0, runs 0)
    ∷ (0, runs 0)
    ∷ (0, calls_enqueue 9)
    ∷ (0, runs 0)
    ∷ (1, calls_stop_all)
    ∷ (1, runs 0)
    ∷ []

abbrev stuck_pool : Pool ℕ
stuck_pool = record {
  tasks = 8 ∷ [];
  stop = true;
  work_limits = 1;
  threads = blocked (inside 7) 9 ∷ joining ∷ [];
  accepted = 7 ∷ 8 ∷ [];
  taken = 7 ∷ [];
  late = false;
}

nested_sticks : run new_pool nested ≡ some stuck_pool
unfolding run start turn act run_worker can_take can_enqueue move take_task run_enqueue run_notify
    run_stop run_notify_all run_join
nested_sticks = refl

pool-IsSound_example : (p : Pool ℕ) × (run new_pool nested ≡ some p) × IsSound 1 1 p
pool-IsSound_example = pool-IsSound 1 one_thread one_thread nested

-- In that state the worker may go on, and neither thread ever moves: the stop woke no thread in `enqueue`.
nested_may_go_on : can_enqueue stuck_pool ≡ true
unfolding can_enqueue
nested_may_go_on = refl

nested_stays : run stuck_pool ((0, runs 0) ∷ (1, runs 0) ∷ []) ≡ some stuck_pool
unfolding run turn act run_join
nested_stays = refl
