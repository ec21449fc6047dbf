-- ===== src/Demo.antt =====
-- tthreads.cpp: `test2` and `test3`, in which threads count what they get from a queue that `main` fills
-- and closes.
pub mod Counts
pub mod Filling
pub mod Reading
pub mod Totals
use hodgepodge.Prelude.{
  ℕ, zero, suc, Bool, true, false, List, [], ◌∷◌, map, Option, none, some, ltb, if◌then◌else◌,
  get_elem?, set, pos,
}
use hodgepodge.BlockingQueue.{Outcome, found, ended, past_end, can_get, get}
use hodgepodge.BlockingQueue.Threads.{
  Pc, idle, getting, waiting_get, putting, waiting_put, Action, calls_get, calls_put, calls_close,
  runs, wakes, System, act, start,
}

-- A thread that runs `call_from_thread` or `worker_thread`: the filter of its calls of `get`, its count,
-- and whether it has left its loop.
pub record Reader (A : Type 0) : Type 0 where
  pub filter : A → Bool
  pub count : ℕ
  pub returned : Bool

-- The first thread of the queue is the one that fills it, and the others are the readers. `made` is the
-- number of the elements that the first thread has called `put` with.
pub record Demo (A : Type 0) : Type 0 where
  pub queue : System A
  pub made : ℕ
  pub readers : List (Reader A)

module _ {A : Type 0} where
  -- What a reader does with the result of `get`.
  abbrev pub note : Outcome A → Reader A → Reader A
  note (found x) r = record r { count = suc r.count }
  note ended r = record r { returned = true }
  note past_end r = r

  abbrev pub note_at : ℕ → Outcome A → List (Reader A) → List (Reader A)
  note_at j out [] = []
  note_at zero out (r ∷ rs) = note out r ∷ rs
  note_at (suc j) out (r ∷ rs) = r ∷ note_at j out rs

  -- The thread has the mutex, or wakes for no reason.
  abbrev pub action_of : Bool → Action A
  action_of true = wakes
  action_of false = runs

module _ {A : Type 0} (item : ℕ → A) (total : ℕ) where
  -- The next call of the thread that fills the queue.
  unfoldable pub call_main : Demo A → Demo A
  call_main d =
      if ltb d.made total
      then record d { queue = act d.queue 0 idle (calls_put true (item d.made)); made = suc d.made }
      else if d.queue.queue.closed
      then d
      else record d { queue = act d.queue 0 idle calls_close }

  -- The next call of a reader.
  unfoldable pub call_reader : ℕ → Demo A → Demo A
  call_reader j d = elim (get_elem? d.readers j) [
    | none ↦ d
    | some r ↦
        if r.returned then d else record d { queue = act d.queue (suc j) idle (calls_get r.filter) }
  ]

  -- A reader goes on in `get`.
  unfoldable pub go_on : ℕ → (A → Bool) → Action A → Demo A → Demo A
  go_on j f runs d =
      if can_get f d.queue.queue
      then record d {
        queue = act d.queue (suc j) (getting f) runs;
        readers = note_at j (get f d.queue.queue).1 d.readers;
      }
      else record d { queue = act d.queue (suc j) (getting f) runs }
  go_on j f a d = record d { queue = act d.queue (suc j) (getting f) a }

  -- What the thread does where it stands.
  unfoldable pub go : ℕ → Pc A → Action A → Demo A → Demo A
  unfolding call_main call_reader go_on
  go zero idle a d = call_main d
  go (suc j) idle a d = call_reader j d
  go (suc j) (getting f) a d = go_on j f a d
  go i p a d = record d { queue = act d.queue i p a }

  unfoldable pub step : Demo A → ℕ × Bool → Demo A
  unfolding go
  step d (i, spurious) = elim (get_elem? d.queue.threads i) [
    | none ↦ d
    | some p ↦ go i p (action_of spurious) d
  ]

  unfoldable pub run_demo : Demo A → List (ℕ × Bool) → Demo A
  unfolding step
  run_demo d [] = d
  run_demo d (s ∷ rest) = run_demo (step d s) rest

module _ {A : Type 0} where
  -- A new queue with this limit, and a reader for each filter.
  unfoldable pub start_demo : ℕ → List (A → Bool) → Demo A
  start_demo limit filters = record {
    queue = start (pos limit) (tt ∷ map (λ f. tt) filters);
    made = 0;
    readers = map (λ f. record { filter = f; count = 0; returned = false }) filters;
  }
