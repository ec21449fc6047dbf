-- ===== src/Tests/Queues.antt =====
-- thread_queue.h at concrete inputs.
use hodgepodge.Prelude.{
  ℕ, ◌≡◌, ◌⊎◌, refl, Bool, true, false, List, [], ◌∷◌, ◌++◌, some, arith, ltb, get_elem?, pos, All,
}
use hodgepodge.BlockingQueue.{
  Queue, found, ended, can_get, note_size, take_it, get, can_put, refuses, put, close,
}
use hodgepodge.BlockingQueue.Calls.{Misses, get_total}
use hodgepodge.BlockingQueue.Threads.{
  waiting_get, waiting_put, Action, calls_get, calls_put, calls_close, runs, run, start, act,
  run_get, run_put, run_close, finish_get, finish_put, move,
}
use hodgepodge.BlockingQueue.Wakeup.{IsQuiet, no_lost_wakeup}
use hodgepodge.BlockingQueue.History.{IsSound, queue-IsSound}
use hodgepodge.BlockingQueue.Order.{first_in_first_out}

abbrev three : Queue ℕ
three = record { size_limit = pos 3; q = 4 ∷ 7 ∷ 9 ∷ []; max_size = pos 0; closed = false }

abbrev above_five : ℕ → Bool
above_five x = ltb 5 x

abbrev any_number : ℕ → Bool
any_number x = true

-- A number above ten on a closed queue that holds none: the reader is told that there will be none.
get_closed :
    get (λ x. ltb 10 x) (close three)
    ≡ (record three { max_size = pos 3; closed = true }, ended, false)
unfolding get close note_size take_it
get_closed = refl

get_total_example :
    ((x : ℕ) × ((get above_five three).1 ≡ found x)
      × (get_elem? (4 ∷ 7 ∷ 9 ∷ []) 1 ≡ some x)
      × (above_five x ≡ true)
      × ((get above_five three).0.q ≡ 4 ∷ 9 ∷ []))
    ⊎ (((get above_five three).1 ≡ ended)
        × (false ≡ true)
        × All (Misses above_five) (4 ∷ 7 ∷ 9 ∷ [])
        × ((get above_five three).0.q ≡ 4 ∷ 7 ∷ 9 ∷ []))
unfolding can_get
get_total_example = get_total above_five three refl

abbrev two_threads : List (Unit {0})
two_threads = tt ∷ tt ∷ []

-- Thread 0 sleeps in `get`, thread 1 puts 5, and thread 0 gets it.
abbrev hand_over : List (ℕ × Action ℕ)
hand_over =
    (0, calls_get any_number) ∷ (0, runs) ∷ (1, calls_put true 5) ∷ (1, runs) ∷ (0, runs) ∷ []

abbrev sleeping_reader : List (ℕ × Action ℕ)
sleeping_reader = (0, calls_get any_number) ∷ (0, runs) ∷ []

-- With a limit of 1 the second `put` sleeps, and a `get` wakes it.
abbrev full_queue : List (ℕ × Action ℕ)
full_queue = (1, calls_put true 5) ∷ (1, runs) ∷ (1, calls_put true 6) ∷ (1, runs) ∷ []

hand_over_runs : (run (start (pos 1) two_threads) hand_over).delivered ≡ 5 ∷ []
unfolding run start act run_get run_put get can_get can_put refuses put take_it note_size move
    finish_get finish_put
hand_over_runs = refl

full_queue_sleeps :
    get_elem? (run (start (pos 1) two_threads) full_queue).threads 1 ≡ some (waiting_put 6)
unfolding run start act run_get run_put get can_get can_put refuses put take_it note_size move
    finish_get finish_put
full_queue_sleeps = refl

sleeping_reader_sleeps :
    get_elem? (run (start (pos 1) two_threads) sleeping_reader).threads 0
    ≡ some (waiting_get any_number)
unfolding run start act run_get can_get move
sleeping_reader_sleeps = refl

no_lost_wakeup_example : IsQuiet (run (start (pos 1) two_threads) full_queue)
no_lost_wakeup_example = no_lost_wakeup (pos 1) two_threads full_queue

queue-IsSound_example : IsSound 1 (run (start (pos 1) two_threads) hand_over)
queue-IsSound_example = queue-IsSound 1 two_threads hand_over (omega arith)

first_in_first_out_example :
    (run (start (pos 1) two_threads) hand_over).accepted
    ≡ (run (start (pos 1) two_threads) hand_over).delivered
      ++ (run (start (pos 1) two_threads) hand_over).queue.q
first_in_first_out_example =
    first_in_first_out (pos 1) two_threads hand_over ((λ x. refl), (tt, (tt, (tt, (tt, tt)))))

abbrev closed_early : List (ℕ × Action ℕ)
closed_early = (0, calls_get any_number) ∷ (0, runs) ∷ (1, calls_close) ∷ []

closed_early_closed : (run (start (pos 1) two_threads) closed_early).queue.closed ≡ true
unfolding run start act run_get run_close can_get move close
closed_early_closed = refl
