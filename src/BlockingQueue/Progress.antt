-- ===== src/BlockingQueue/Progress.antt =====
-- What the wakeups give: who cannot be asleep.
use hodgepodge.Prelude.{
  ℕ, ◌≤◌, ◌<◌, ◌^◌, ◌≡◌, ◌≢◌, refl, Bool, true, false, List, [], ◌∷◌, some, arith, All,
  All-get_elem?, get_elem?, ℤ, pos, length,
}
use hodgepodge.BlockingQueue.{Queue, can_get, can_put}
use hodgepodge.BlockingQueue.Wakeup.{no_lost_wakeup, IsAsleep}
use hodgepodge.BlockingQueue.History.{queue-IsSound}
use hodgepodge.BlockingQueue.Order.{TakesAny}
use hodgepodge.BlockingQueue.Threads.{waiting_get, waiting_put, Action, System, run, start}

module _ {ℓ} {A : Type ℓ} where
  can_get-any :
      (f : A → Bool) (s : Queue A) (xs : List A)
      → TakesAny f
      → s.q ≡ xs
      → can_get f s ≡ false
      → length xs ≡ 0
  unfolding can_get
  can_get-any f s [] any e h = refl
  can_get-any f s (x ∷ xs) any e h = ground (arith, any x)

  full-length : (n : ℕ) (s : Queue A) → s.size_limit ≡ pos n → can_put s ≡ false → n ≤ length s.q
  unfolding can_put
  full-length n s e h = ground arith

  can_get-closed : (f : A → Bool) (s : Queue A) → can_get f s ≡ false → s.closed ≡ false
  unfolding can_get
  can_get-closed f s h = ground arith

  -- With a positive limit, a reader that takes anything and a writer are never both asleep.
  no_mutual_sleep :
      (n : ℕ) (ts : List (Unit {0})) (hist : List (ℕ × Action A)) (i j : ℕ) (f : A → Bool) (x : A)
      → n < 2 ^ 31
      → 0 < n
      → TakesAny f
      → get_elem? (run (start (pos n) ts) hist).threads i ≡ some (waiting_get f)
      → get_elem? (run (start (pos n) ts) hist).threads j ≢ some (waiting_put x)
  no_mutual_sleep n ts hist i j f x small some_room any reads writes =
      absurd (omega (arith, empty, full))
    where
      now : System A
      now = run (start (pos n) ts) hist

      quiet : All (IsAsleep now.queue) now.threads
      quiet = no_lost_wakeup (pos n) ts hist

      empty : length now.queue.q ≡ 0
      empty =
          can_get-any f now.queue now.queue.q any refl
            (All-get_elem? (IsAsleep now.queue) now.threads i quiet reads)

      full : n ≤ length now.queue.q
      full =
          full-length n now.queue (queue-IsSound n ts hist small).valid.limited
            (All-get_elem? (IsAsleep now.queue) now.threads j quiet writes)

  -- Once the queue is closed no thread is asleep in `get`, whatever its filter.
  no_sleeping_reader_closed :
      (sz : ℤ) (ts : List (Unit {0})) (hist : List (ℕ × Action A)) (i : ℕ) (f : A → Bool)
      → (run (start sz ts) hist).queue.closed ≡ true
      → get_elem? (run (start sz ts) hist).threads i ≢ some (waiting_get f)
  no_sleeping_reader_closed sz ts hist i f closed reads = cc (closed, open_still)
    where
      now : System A
      now = run (start sz ts) hist

      open_still : now.queue.closed ≡ false
      open_still =
          can_get-closed f now.queue
            (All-get_elem? (IsAsleep now.queue) now.threads i (no_lost_wakeup sz ts hist) reads)
