-- ===== src/Tests/Demos.antt =====
-- The demo of the queue, with two elements and a limit of one.
use hodgepodge.Prelude.{
  ◌≡◌, refl, true, false, Bool, List, [], ◌∷◌, map, ℕ, some, arith, get_elem?, sum_by, leb,
}
use hodgepodge.BlockingQueue.{can_get, get, put, close, can_put, refuses, note_size, take_it, init}
use hodgepodge.BlockingQueue.Threads.{
  act, move, run_get, run_put, run_close, finish_get, finish_put, start,
}
use hodgepodge.Demo.{Reader, run_demo, start_demo}
use hodgepodge.Demo.Totals.{run_demo-count}

abbrev item : ℕ → ℕ
item k = k

-- A reader that takes anything, and one that takes numbers from 1 on.
abbrev two_filters : List (ℕ → Bool)
two_filters = (λ k. true) ∷ (λ k. leb 1 k) ∷ []

-- The writer has to wait; the second reader gets the last number.
abbrev turns : List (ℕ × Bool)
turns = map (λ i. (i, false)) (0 ∷ 0 ∷ 0 ∷ 0 ∷ 2 ∷ 2 ∷ 1 ∷ 1 ∷ 0 ∷ 0 ∷ 2 ∷ 1 ∷ 1 ∷ 1 ∷ [])

abbrev first_reader : Reader ℕ
first_reader = record { filter = λ k. true; count = 1; returned = true }

first_returns :
    get_elem? (run_demo item 2 (start_demo 1 two_filters) turns).readers 0 ≡ some first_reader
unfolding run_demo start_demo start act run_get run_put run_close finish_get finish_put move can_get
    get put close can_put refuses note_size take_it init
first_returns = refl

run_demo-count_example :
    ((run_demo item 2 (start_demo 1 two_filters) turns).queue.queue.q ≡ [])
    × (sum_by (λ r. r.count) (run_demo item 2 (start_demo 1 two_filters) turns).readers ≡ 2)
run_demo-count_example =
    run_demo-count item 2 1 (omega arith) two_filters turns 0 first_reader first_returns (λ x. refl)
      refl
