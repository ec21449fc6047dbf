-- ===== src/ThreadPool/History.antt =====
-- What holds after any history of the pool, and what a stop does not do.
use mathlib.Core.List.{append-nil}
use mathlib.Core.Option.{some-injective}
use hodgepodge.Prelude.{
  ℕ, ◌<◌, ◌≡◌, sym, subst, ◌∙◌, true, false, List, [], ◌∷◌, ◌++◌, map, some, arith, length, sum_by,
}
use hodgepodge.ThreadPool.{Pc, outside, ready, Action, Pool, lives, run, start}
use hodgepodge.ThreadPool.Counts.{sleeps, exits}
use hodgepodge.ThreadPool.Invariant.{IsSound, run-IsSound}

module _ {ℓ} {A : Type ℓ} where
  -- The threads of a new pool: the workers at the mutex, then the clients outside.
  record Opening (n : ℕ) (xs : List (Pc A)) : Type 0 where
    none_asleep : sum_by sleeps xs ≡ 0
    none_exited : sum_by exits xs ≡ 0
    all_live : sum_by lives xs ≡ n

  outside-Opening : (clients : List (Unit {0})) → Opening 0 (map (λ _. outside) clients)
  outside-Opening [] = omega arith
  outside-Opening (c ∷ clients) = omega (arith, outside-Opening clients)

  start-Opening :
      (workers clients : List (Unit {0}))
      → Opening (length workers) (map (λ _. ready) workers ++ map (λ _. outside) clients)
  start-Opening [] clients = outside-Opening clients
  start-Opening (w ∷ workers) clients = omega (arith, start-Opening workers clients)

  start-IsSound :
      (limit : ℕ) (workers clients : List (Unit {0}))
      → IsSound limit (length workers) (start {A = A} limit workers clients)
  unfolding start
  start-IsSound limit workers clients = ground (arith, start-Opening workers clients)

  -- A new pool, after any history: the run never reads the front of an empty queue, and in the
  -- state that it ends in the workers take the tasks in the order in which they were accepted; until
  -- the stop at most `work_limits` tasks wait; the workers stay as many, and return only after
  -- the stop; if a worker sleeps, there are at most as many waiting tasks as threads that are about
  -- to look for one or to notify, and after the stop there is one about to notify all; and if
  -- there is a worker, all workers have returned and no client enqueued after the stop, no task is left.
  pub pool-IsSound :
      (limit : ℕ) (workers clients : List (Unit {0})) (hist : List (ℕ × Action A))
      → (p : Pool A) × (run (start limit workers clients) hist ≡ some p)
        × IsSound limit (length workers) p
  pool-IsSound limit workers clients hist = run-IsSound _ hist (start-IsSound limit workers clients)

  reached :
      (limit : ℕ) (workers clients : List (Unit {0})) (hist : List (ℕ × Action A)) (p : Pool A)
      → run (start limit workers clients) hist ≡ some p
      → IsSound limit (length workers) p
  reached limit workers clients hist p e =
      let (q, f, v) = pool-IsSound limit workers clients hist in
      subst (IsSound limit (length workers)) (some-injective _ _ (sym f ∙ e)) v

  -- In every state that a pool with a worker can reach: once all workers have returned, which is
  -- what the joins wait for, every accepted task was taken, in order, unless a client enqueued one
  -- after the stop.
  joined_took_all :
      (limit : ℕ) (workers clients : List (Unit {0})) (hist : List (ℕ × Action A)) (p : Pool A)
      → run (start limit workers clients) hist ≡ some p
      → 0 < length workers
      → p.late ≡ false
      → sum_by lives p.threads ≡ 0
      → (p.stop ≡ true) × (p.taken ≡ p.accepted)
  joined_took_all limit workers clients hist p e some_worker on_time over =
      (v.leaving (omega (arith, v.workers)), sym (v.order ∙ rw none_left (append-nil p.taken)))
    where
      v : IsSound limit (length workers) p
      v = reached limit workers clients hist p e

      none_left : p.tasks ≡ []
      none_left = ground (arith, v.drained on_time some_worker over)
