-- ===== src/ThreadPool/Invariant.antt =====
-- What every step of the pool keeps.
use mathlib.Core.List.{append_assoc}
use hodgepodge.Prelude.{
  ℕ, ◌+◌, ◌≤◌, ◌<◌, ◌≡◌, refl, ap, ◌∙◌, inl, inr, true, false, ◌&&◌, ◌||◌, ◌==◌, List, [], ◌∷◌,
  ◌++◌, map, some, arith, get_elem?, set, length, length-append, sum_by, sum_by-le, Option-cases,
  Bool-cases,
}
use hodgepodge.ThreadPool.{
  Caller, client, inside, Pc, outside, ready, asleep, working, exited, enqueuing, blocked,
  notifying, stopping, joining, Action, calls_enqueue, calls_stop_all, runs, finishes, wakes, Pool,
  lives, is_empty, is_client, wake_enqueuer, can_take, can_enqueue, move, take_task, run_worker,
  run_enqueue, run_notify, run_stop, run_notify_all, run_join, act, turn, run,
}
use hodgepodge.ThreadPool.Counts.{
  sleeps, is_ready, notifies, stops, exits, Moved, set-Moved, wake_enqueuer-Moved,
  wake_worker-Roused, wake_one-Moved,
}

module _ {ℓ} {A : Type ℓ} where
  -- For a pool of `n` workers made with the limit `limit`.
  pub record IsSound (limit n : ℕ) (p : Pool A) : Type ℓ where
    pub limited : p.work_limits ≡ limit
    pub bounded : p.stop ≡ false → length p.tasks ≤ limit
    pub order : p.accepted ≡ p.taken ++ p.tasks
    pub woken :
        0 < sum_by sleeps p.threads
        → length p.tasks ≤ sum_by is_ready p.threads + sum_by notifies p.threads
    pub told : p.stop ≡ true → 0 < sum_by sleeps p.threads → 0 < sum_by stops p.threads
    pub workers : sum_by lives p.threads + sum_by exits p.threads ≡ n
    pub leaving : 0 < sum_by exits p.threads → p.stop ≡ true
    pub drained : p.late ≡ false → 0 < n → sum_by lives p.threads ≡ 0 → length p.tasks ≡ 0

  -- Two places outside the waits of a worker, which count alike.
  record Neutral (old new : Pc A) : Type 0 where
    asleep_same : (sleeps old ≡ 0) × (sleeps new ≡ 0)
    ready_same : (is_ready old ≡ 0) × (is_ready new ≡ 0)
    notifying_same : (notifies old ≡ 0) × (notifies new ≡ 0)
    stopping_same : stops old ≡ stops new
    exited_same : exits old ≡ exits new
    live_same : lives old ≡ lives new

  module _ {limit n : ℕ} {p : Pool A} (v : IsSound limit n p) (i : ℕ) where
    open v use {limited, bounded, order, woken, told, workers, leaving, drained}

    move-asleep :
        get_elem? p.threads i ≡ some ready → can_take p ≡ false → IsSound limit n (move p i asleep)
    unfolding move can_take
    move-asleep e w = ground (arith, set-Moved p.threads i ready asleep e)

    move-exited :
        get_elem? p.threads i ≡ some ready
        → (p.stop && is_empty p.tasks) ≡ true
        → IsSound limit n (move p i exited)
    unfolding move
    move-exited e w = ground (arith, set-Moved p.threads i ready exited e)

    move-ready :
        {s : A} → get_elem? p.threads i ≡ some (working s) → IsSound limit n (move p i ready)
    unfolding move
    move-ready {s} e = ground (arith, set-Moved p.threads i (working s) ready e)

    move-woken : get_elem? p.threads i ≡ some asleep → IsSound limit n (move p i ready)
    unfolding move
    move-woken e = ground (arith, set-Moved p.threads i asleep ready e)

    move-Neutral :
        (old new : Pc A)
        → get_elem? p.threads i ≡ some old
        → Neutral old new
        → IsSound limit n (move p i new)
    unfolding move
    move-Neutral old new e k = ground (arith, set-Moved p.threads i old new e)

    take_task-IsSound :
        (ts : List A)
        → get_elem? p.threads i ≡ some ready
        → p.tasks ≡ ts
        → (p.stop && is_empty p.tasks) ≡ false
        → can_take p ≡ true
        → (p' : Pool A) × (take_task p i ≡ some p') × IsSound limit n p'
    unfolding take_task can_take
    take_task-IsSound [] e f busy w = absurd (ground arith)
    take_task-IsSound (t ∷ rest) e f busy w = (
      record p {
        tasks = rest;
        threads = map wake_enqueuer (set p.threads i (working t));
        taken = p.taken ++ t ∷ [];
      },
      rw (f, take_task),
      record {
        limited = limited;
        bounded = ground arith;
        order = rw append_assoc (order ∙ ap (λ l. p.taken ++ l) f);
        woken = ground (arith, moved, same);
        told = ground (arith, moved, same);
        workers = ground (arith, moved, same);
        leaving = ground (arith, moved, same);
        drained = ground (arith, moved, same);
      },
    )
      where
        moved : Moved p.threads (set p.threads i (working t)) ready (working t)
        moved = set-Moved p.threads i ready (working t) e

        same :
            Moved
              (set p.threads i (working t))
              (map wake_enqueuer (set p.threads i (working t)))
              ready
              ready
        same = wake_enqueuer-Moved (set p.threads i (working t))

    run_worker-IsSound :
        get_elem? p.threads i ≡ some ready
        → (p' : Pool A) × (run_worker p i ≡ some p') × IsSound limit n p'
    unfolding run_worker
    run_worker-IsSound e = elim (Bool-cases (can_take p)) [
      | inl now ↦ rw now (elim (Bool-cases (p.stop && is_empty p.tasks)) [
        | inl over ↦ rw over (move p i exited, refl, move-exited e over)
        | inr busy ↦ rw busy (take_task-IsSound p.tasks e refl busy now)
      ])
      | inr later ↦ rw later (move p i asleep, refl, move-asleep e later)
    ]

    enqueue_accepts :
        (who : Caller A) (t : A)
        → get_elem? p.threads i ≡ some (enqueuing who t)
        → can_enqueue p ≡ true
        → IsSound limit n (record p {
          tasks = p.tasks ++ t ∷ [];
          threads = set p.threads i (notifying who);
          accepted = p.accepted ++ t ∷ [];
          late = p.late || (p.stop && is_client who);
        })
    unfolding can_enqueue
    enqueue_accepts client t e now = record {
      limited = limited;
      bounded = ground (arith, length-append p.tasks (t ∷ []));
      order = ap (λ l. l ++ t ∷ []) order ∙ append_assoc p.taken p.tasks (t ∷ []);
      woken = ground (arith, moved, length-append p.tasks (t ∷ []));
      told = ground (arith, moved);
      workers = ground (arith, moved);
      leaving = ground (arith, moved);
      drained = ground (arith, moved);
    }
      where
        moved :
            Moved p.threads
              (set p.threads i (notifying client))
              (enqueuing client t)
              (notifying client)
        moved = set-Moved p.threads i (enqueuing client t) (notifying client) e
    enqueue_accepts (inside s) t e now = record {
      limited = limited;
      bounded = ground (arith, length-append p.tasks (t ∷ []));
      order = ap (λ l. l ++ t ∷ []) order ∙ append_assoc p.taken p.tasks (t ∷ []);
      woken = ground (arith, moved, length-append p.tasks (t ∷ []));
      told = ground (arith, moved);
      workers = ground (arith, moved);
      leaving = ground (arith, moved);
      drained = ground (arith, moved, sum_by-le lives p.threads i (enqueuing (inside s) t) e);
    }
      where
        moved :
            Moved p.threads
              (set p.threads i (notifying (inside s)))
              (enqueuing (inside s) t)
              (notifying (inside s))
        moved = set-Moved p.threads i (enqueuing (inside s) t) (notifying (inside s)) e

    enqueue_waits :
        (who : Caller A) (t : A)
        → get_elem? p.threads i ≡ some (enqueuing who t)
        → IsSound limit n (move p i (blocked who t))
    enqueue_waits client t e = move-Neutral (enqueuing client t) (blocked client t) e (omega arith)
    enqueue_waits (inside s) t e =
        move-Neutral (enqueuing (inside s) t) (blocked (inside s) t) e (omega arith)

    run_enqueue-IsSound :
        (who : Caller A) (t : A)
        → get_elem? p.threads i ≡ some (enqueuing who t)
        → IsSound limit n (run_enqueue p i who t)
    unfolding run_enqueue
    run_enqueue-IsSound who t e = elim (Bool-cases (can_enqueue p)) [
      | inl now ↦ rw now (enqueue_accepts who t e now)
      | inr later ↦ rw later (enqueue_waits who t e)
    ]

    run_notify-IsSound :
        (who : Caller A) (j : ℕ)
        → get_elem? p.threads i ≡ some (notifying who)
        → IsSound limit n (run_notify p i who j)
    unfolding run_notify
    run_notify-IsSound client j e = elim (wake_one-Moved (set p.threads i outside) j) [
      | inl (none_asleep, same) ↦
          rw same (ground (arith, none_asleep, set-Moved p.threads i (notifying client) outside e))
      | inr m ↦ ground (arith, m, set-Moved p.threads i (notifying client) outside e)
    ]
    run_notify-IsSound (inside s) j e = elim (wake_one-Moved (set p.threads i (working s)) j) [
      | inl (none_asleep, same) ↦
          rw same (
            ground (arith, none_asleep, set-Moved p.threads i (notifying (inside s)) (working s) e))
      | inr m ↦ ground (arith, m, set-Moved p.threads i (notifying (inside s)) (working s) e)
    ]

    run_stop-IsSound : get_elem? p.threads i ≡ some outside → IsSound limit n (run_stop p i)
    unfolding run_stop
    run_stop-IsSound e = ground (arith, set-Moved p.threads i outside stopping e)

    run_notify_all-IsSound :
        get_elem? p.threads i ≡ some stopping → IsSound limit n (run_notify_all p i)
    unfolding run_notify_all
    run_notify_all-IsSound e = ground (
      arith,
      set-Moved p.threads i stopping joining e,
      wake_worker-Roused (set p.threads i joining),
    )

    run_join-IsSound : get_elem? p.threads i ≡ some joining → IsSound limit n (run_join p i)
    unfolding run_join
    run_join-IsSound e = elim (Bool-cases (sum_by lives p.threads == 0)) [
      | inl over ↦ rw over (move-Neutral joining outside e (omega arith))
      | inr on ↦ rw on v
    ]

  act-IsSound :
      {limit n : ℕ} {p : Pool A}
      → IsSound limit n p
      → (i : ℕ) (pc : Pc A) (a : Action A) → get_elem? p.threads i ≡ some pc
      → (p' : Pool A) × (act p i pc a ≡ some p') × IsSound limit n p'
  unfolding act
  act-IsSound {p} v i outside (calls_enqueue t) e =
      (_, refl, move-Neutral v i outside (enqueuing client t) e (omega arith))
  act-IsSound {p} v i outside calls_stop_all e = (_, refl, run_stop-IsSound v i e)
  act-IsSound {p} v i ready (runs j) e = run_worker-IsSound v i e
  act-IsSound {p} v i asleep wakes e = (_, refl, move-woken v i e)
  act-IsSound {p} v i (working s) (calls_enqueue t) e =
      (_, refl, move-Neutral v i (working s) (enqueuing (inside s) t) e (omega arith))
  act-IsSound {p} v i (working s) finishes e = (_, refl, move-ready v i e)
  act-IsSound {p} v i (enqueuing who t) (runs j) e = (_, refl, run_enqueue-IsSound v i who t e)
  act-IsSound {p} v i (blocked client t) wakes e =
      (_, refl, move-Neutral v i (blocked client t) (enqueuing client t) e (omega arith))
  act-IsSound {p} v i (blocked (inside s) t) wakes e =
      (_, refl, move-Neutral v i (blocked (inside s) t) (enqueuing (inside s) t) e (omega arith))
  act-IsSound {p} v i (notifying who) (runs j) e = (_, refl, run_notify-IsSound v i who j e)
  act-IsSound {p} v i stopping (runs j) e = (_, refl, run_notify_all-IsSound v i e)
  act-IsSound {p} v i joining (runs j) e = (_, refl, run_join-IsSound v i e)
  act-IsSound {p} v i pc a e = (p, refl, v)

  turn-IsSound :
      {limit n : ℕ} {p : Pool A}
      → IsSound limit n p
      → (a : ℕ × Action A) → (p' : Pool A) × (turn p a ≡ some p') × IsSound limit n p'
  unfolding turn
  turn-IsSound {p} v (i, a) = elim (Option-cases (get_elem? p.threads i)) [
    | inl none_there ↦ rw (none_there, turn) (p, refl, v)
    | inr (pc, e) ↦ rw (e, turn) (act-IsSound v i pc a e)
  ]

  pub run-IsSound :
      {limit n : ℕ} (p : Pool A) (hist : List (ℕ × Action A))
      → IsSound limit n p
      → (p' : Pool A) × (run p hist ≡ some p') × IsSound limit n p'
  unfolding run
  run-IsSound p [] v = (p, refl, v)
  run-IsSound p (a ∷ hist) v =
      let (q, e, w) = turn-IsSound v a in rw (e, run) (run-IsSound q hist w)
