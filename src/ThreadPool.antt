-- ===== src/ThreadPool.antt =====
-- thread_pool.h: `ThreadPool`, its workers and the threads that call it. A step is what one thread
-- does between two points where another can get the mutex.
pub mod Counts
pub mod Invariant
pub mod History
use hodgepodge.Prelude.{
  ℕ, zero, suc, ◌+◌, Bool, true, false, not, ◌&&◌, ◌||◌, List, [], ◌∷◌, ◌++◌, map, Option, none,
  some, ltb, if◌then◌else◌, length, get_elem?, set, sum_by, ◌==◌,
}

-- Who calls `enqueue`: a thread outside the pool, or a task, which a worker is executing.
pub data Caller {ℓ} (A : Type ℓ) : Type ℓ where
  client : Caller A
  inside : A → Caller A

-- Where a thread stands. A worker is about to take the mutex (`ready`), asleep on `condition`,
-- executing a task, or has returned. In `enqueue` a thread is about to take the mutex, asleep on
-- `condition_notfull`, or between the unlocking and `notify_one`. In `stop_all` it is between the
-- unlocking and `notify_all` (`stopping`), or joins the workers.
pub data Pc {ℓ} (A : Type ℓ) : Type ℓ where
  outside : Pc A
  ready : Pc A
  asleep : Pc A
  working : A → Pc A
  exited : Pc A
  enqueuing : Caller A → A → Pc A
  blocked : Caller A → A → Pc A
  notifying : Caller A → Pc A
  stopping : Pc A
  joining : Pc A

-- What the threads' own code and the scheduler choose. At `runs` the number names the worker that
-- `notify_one` wakes, if it sleeps; `wakes` is a wakeup that nothing caused.
pub data Action {ℓ} (A : Type ℓ) : Type ℓ where
  calls_enqueue : A → Action A
  calls_stop_all : Action A
  runs : ℕ → Action A
  finishes : Action A
  wakes : Action A

-- `accepted` and `taken` record what `enqueue` put in and the workers took out, in order, and `late`
-- whether a client enqueued a task after the stop; no code reads them.
pub record Pool {ℓ} (A : Type ℓ) : Type ℓ where
  pub tasks : List A
  pub stop : Bool
  pub work_limits : ℕ
  pub threads : List (Pc A)
  pub accepted : List A
  pub taken : List A
  pub late : Bool

module _ {ℓ} {A : Type ℓ} where
  abbrev pub is_empty : List A → Bool
  is_empty [] = true
  is_empty (t ∷ rest) = false

  abbrev pub back_to : Caller A → Pc A
  back_to client = outside
  back_to (inside t) = working t

  abbrev pub is_client : Caller A → Bool
  is_client client = true
  is_client (inside t) = false

  -- `condition.notify_all()`
  abbrev pub wake_worker : Pc A → Pc A
  wake_worker asleep = ready
  wake_worker p = p

  -- `condition_notfull.notify_all()`
  abbrev pub wake_enqueuer : Pc A → Pc A
  wake_enqueuer (blocked who t) = enqueuing who t
  wake_enqueuer p = p

  -- The first worker that sleeps, if there is one.
  abbrev pub wake_first : List (Pc A) → List (Pc A)
  wake_first [] = []
  wake_first (asleep ∷ ps) = ready ∷ ps
  wake_first (p ∷ ps) = p ∷ wake_first ps

  -- `condition.notify_one()`: the worker `j` if it sleeps, and otherwise some worker that does.
  abbrev pub wake_at : List (Pc A) → ℕ → Option (Pc A) → List (Pc A)
  wake_at ps j (some asleep) = set ps j ready
  wake_at ps j p = wake_first ps

  abbrev pub wake_one : List (Pc A) → ℕ → List (Pc A)
  wake_one ps j = wake_at ps j (get_elem? ps j)

  -- The predicate that a worker waits for, and the one that `enqueue` waits for.
  unfoldable pub can_take : Pool A → Bool
  can_take p = p.stop || not (is_empty p.tasks)

  unfoldable pub can_enqueue : Pool A → Bool
  can_enqueue p = p.stop || ltb (length p.tasks) p.work_limits

  unfoldable pub move : Pool A → ℕ → Pc A → Pool A
  move p i pc = record p { threads = set p.threads i pc }

  -- `front` and `pop`, with the notification; there is no front of an empty queue.
  unfoldable pub take_task : Pool A → ℕ → Option (Pool A)
  take_task p i = elim p.tasks [
    | [] ↦ none
    | t ∷ rest ↦ some (record p {
      tasks = rest;
      threads = map wake_enqueuer (set p.threads i (working t));
      taken = p.taken ++ t ∷ [];
    })
  ]

  -- One round of a worker's loop, up to the task; `none` is a read of the front of an empty queue.
  unfoldable pub run_worker : Pool A → ℕ → Option (Pool A)
  unfolding move
  run_worker p i =
      if can_take p
      then (if p.stop && is_empty p.tasks then some (move p i exited) else take_task p i)
      else some (move p i asleep)

  unfoldable pub run_enqueue : Pool A → ℕ → Caller A → A → Pool A
  unfolding move
  run_enqueue p i who t =
      if can_enqueue p
      then record p {
        tasks = p.tasks ++ t ∷ [];
        threads = set p.threads i (notifying who);
        accepted = p.accepted ++ t ∷ [];
        late = p.late || (p.stop && is_client who);
      }
      else move p i (blocked who t)

  unfoldable pub run_notify : Pool A → ℕ → Caller A → ℕ → Pool A
  run_notify p i who j = record p { threads = wake_one (set p.threads i (back_to who)) j }

  -- `stop_all`, and likewise the destructor: the critical section, then the notification.
  unfoldable pub run_stop : Pool A → ℕ → Pool A
  run_stop p i = record p { stop = true; threads = set p.threads i stopping }

  unfoldable pub run_notify_all : Pool A → ℕ → Pool A
  run_notify_all p i = record p { threads = map wake_worker (set p.threads i joining) }

  -- Workers that have not returned.
  abbrev pub lives : Pc A → ℕ
  lives ready = 1
  lives asleep = 1
  lives (working t) = 1
  lives (enqueuing (inside s) t) = 1
  lives (blocked (inside s) t) = 1
  lives (notifying (inside s)) = 1
  lives p = 0

  -- The joins return when every worker has.
  unfoldable pub run_join : Pool A → ℕ → Pool A
  unfolding move
  run_join p i = if sum_by lives p.threads == 0 then move p i outside else p

  -- An action that does not fit where the thread stands changes nothing; `none` is undefined
  -- behaviour.
  unfoldable pub act : Pool A → ℕ → Pc A → Action A → Option (Pool A)
  act p i outside (calls_enqueue t) = some (move p i (enqueuing client t))
  act p i outside calls_stop_all = some (run_stop p i)
  act p i ready (runs j) = run_worker p i
  act p i asleep wakes = some (move p i ready)
  act p i (working s) (calls_enqueue t) = some (move p i (enqueuing (inside s) t))
  act p i (working s) finishes = some (move p i ready)
  act p i (enqueuing who t) (runs j) = some (run_enqueue p i who t)
  act p i (blocked who t) wakes = some (move p i (enqueuing who t))
  act p i (notifying who) (runs j) = some (run_notify p i who j)
  act p i stopping (runs j) = some (run_notify_all p i)
  act p i joining (runs j) = some (run_join p i)
  act p i pc a = some p

  unfoldable pub turn : Pool A → ℕ × Action A → Option (Pool A)
  turn p (i, a) = elim (get_elem? p.threads i) [ none ↦ some p | some pc ↦ act p i pc a ]

  unfoldable pub run : Pool A → List (ℕ × Action A) → Option (Pool A)
  run p [] = some p
  run p (a ∷ rest) = elim (turn p a) [ none ↦ none | some p' ↦ run p' rest ]

  -- The constructor: the workers start at the mutex. The clients are the threads outside.
  unfoldable pub start : ℕ → List (Unit {0}) → List (Unit {0}) → Pool A
  start limit workers clients = record {
    tasks = [];
    stop = false;
    work_limits = limit;
    threads = map (λ _. ready) workers ++ map (λ _. outside) clients;
    accepted = [];
    taken = [];
    late = false;
  }
