-- ===== src/BlockingQueue/Threads.antt =====
-- thread_queue.h, used by any number of threads: a step is what one thread does under the mutex
-- up to the next wait on a condition variable, or its return.
use hodgepodge.Prelude.{
  ℕ, Bool, true, List, [], ◌∷◌, ◌++◌, map, none, some, if◌then◌else◌, get_elem?, set, ℤ,
}
use hodgepodge.BlockingQueue.{
  Queue, Outcome, found, ended, past_end, init, can_get, get, can_put, refuses, put, close,
}

-- Where a thread stands: outside, about to take the mutex in `get` or `put` (the flag is
-- `blocking`), or asleep on `_cv` or on `_cv_notfull`.
pub data Pc {ℓ} (A : Type ℓ) : Type ℓ where
  idle : Pc A
  getting : (A → Bool) → Pc A
  waiting_get : (A → Bool) → Pc A
  putting : Bool → A → Pc A
  waiting_put : A → Pc A

-- What the scheduler and the threads' own code choose. `runs` lets a thread have the mutex, and
-- `wakes` is a wakeup of a condition variable that nothing caused.
pub data Action {ℓ} (A : Type ℓ) : Type ℓ where
  calls_get : (A → Bool) → Action A
  calls_put : Bool → A → Action A
  calls_close : Action A
  runs : Action A
  wakes : Action A

-- `accepted` and `delivered` record what went in and out, in order; no code reads them.
pub record System {ℓ} (A : Type ℓ) : Type ℓ where
  pub queue : Queue A
  pub threads : List (Pc A)
  pub accepted : List A
  pub delivered : List A

module _ {ℓ} {A : Type ℓ} where
  -- `_cv.notify_all()`
  abbrev pub wake_getter : Pc A → Pc A
  wake_getter (waiting_get f) = getting f
  wake_getter p = p

  -- `_cv_notfull.notify_all()`
  abbrev pub wake_putter : Pc A → Pc A
  wake_putter (waiting_put x) = putting true x
  wake_putter p = p

  abbrev pub outgoing : Outcome A → List A
  outgoing (found x) = x ∷ []
  outgoing ended = []
  outgoing past_end = []

  unfoldable pub move : System A → ℕ → Pc A → System A
  move s i p = record s { threads = set s.threads i p }

  unfoldable pub finish_get : System A → ℕ → Queue A × Outcome A × Bool → System A
  finish_get s i (queue', out, notified) =
      let back = set s.threads i idle in
      record s {
        queue = queue';
        threads = if notified then map wake_putter back else back;
        delivered = s.delivered ++ outgoing out;
      }

  unfoldable pub run_get : System A → ℕ → (A → Bool) → System A
  unfolding finish_get move
  run_get s i f =
      if can_get f s.queue then finish_get s i (get f s.queue) else move s i (waiting_get f)

  unfoldable pub finish_put : System A → ℕ → A → System A
  finish_put s i x = record s {
    queue = put x s.queue;
    threads = map wake_getter (set s.threads i idle);
    accepted = s.accepted ++ x ∷ [];
  }

  unfoldable pub run_put : System A → ℕ → Bool → A → System A
  unfolding finish_put move
  run_put s i blocking x =
      if refuses blocking s.queue
      then move s i idle
      else if can_put s.queue
      then finish_put s i x
      else move s i (waiting_put x)

  unfoldable pub run_close : System A → System A
  run_close s = record s { queue = close s.queue; threads = map wake_getter s.threads }

  -- An action that does not fit where the thread stands changes nothing.
  unfoldable pub act : System A → ℕ → Pc A → Action A → System A
  unfolding run_get run_put run_close move
  act s i idle (calls_get f) = move s i (getting f)
  act s i idle (calls_put blocking x) = move s i (putting blocking x)
  act s i idle calls_close = run_close s
  act s i (getting f) runs = run_get s i f
  act s i (putting blocking x) runs = run_put s i blocking x
  act s i (waiting_get f) wakes = move s i (getting f)
  act s i (waiting_put x) wakes = move s i (putting true x)
  act s i p a = s

  unfoldable pub turn : System A → ℕ × Action A → System A
  unfolding act
  turn s (i, a) = elim (get_elem? s.threads i) [ none ↦ s | some p ↦ act s i p a ]

  unfoldable pub run : System A → List (ℕ × Action A) → System A
  unfolding turn
  run s [] = s
  run s (a ∷ rest) = run (turn s a) rest

  abbrev pub idles : List (Unit {0}) → List (Pc A)
  idles = map (λ _. idle)

  -- A new queue, and one thread for each entry of the list.
  unfoldable pub start : ℤ → List (Unit {0}) → System A
  unfolding init
  start sz ts = record { queue = init sz; threads = idles ts; accepted = []; delivered = [] }
