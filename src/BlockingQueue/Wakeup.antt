-- ===== src/BlockingQueue/Wakeup.antt =====
-- No wakeup of the condition variables is lost.
use hodgepodge.Prelude.{
  ℕ, zero, suc, ◌≤◌, ◌≡◌, Bool, true, false, List, [], ◌∷◌, arith, All, All-set, All-map, All-imp,
  Option-cases, Bool-cases, get_elem?, set, ℤ, inl, inr, length, length-append, erase_at,
}
use hodgepodge.BlockingQueue.{
  Queue, find_it, refuses, can_get, note_size, take_it, get, can_put, put, close,
}
use hodgepodge.BlockingQueue.Threads.{
  Pc, idle, getting, waiting_get, putting, waiting_put, Action, calls_get, calls_put, calls_close,
  runs, wakes, System, wake_getter, wake_putter, move, finish_get, run_get, finish_put, run_put,
  run_close, act, turn, run, idles, start,
}

module _ {ℓ} {A : Type ℓ} where
  -- A thread that sleeps waits for something that is not so.
  abbrev pub IsAsleep : Queue A → Pc A → Type 0
  IsAsleep s (waiting_get f) = can_get f s ≡ false
  IsAsleep s (waiting_put x) = can_put s ≡ false
  IsAsleep s p = Unit

  abbrev pub IsQuiet : System A → Type 0
  IsQuiet s = All (IsAsleep s.queue) s.threads

  find_it-erase_at :
      (g : A → Bool) (xs : List A) (i : ℕ)
      → length xs ≤ find_it g xs
      → length (erase_at xs i) ≤ find_it g (erase_at xs i)
  find_it-erase_at g [] i h = omega arith
  find_it-erase_at g (x ∷ xs) zero h = ground arith
  find_it-erase_at g (x ∷ xs) (suc i) h = ground (arith, find_it-erase_at g xs i)

  get-can_get : (f g : A → Bool) (s : Queue A) → can_get g s ≡ false → can_get g (get f s).0 ≡ false
  unfolding get can_get note_size take_it
  get-can_get f g s h = ground (arith, find_it-erase_at g s.q (find_it f s.q))

  get-can_put :
      (f : A → Bool) (s : Queue A)
      → (get f s).2 ≡ false
      → can_put s ≡ false
      → can_put (get f s).0 ≡ false
  unfolding get can_put note_size take_it
  get-can_put f s n h = ground (arith)

  wake_getter-IsAsleep :
      (s s' : Queue A)
      → (can_put s ≡ false → can_put s' ≡ false)
      → (p : Pc A) → IsAsleep s p
      → IsAsleep s' (wake_getter p)
  wake_getter-IsAsleep s s' keep idle h = tt
  wake_getter-IsAsleep s s' keep (waiting_put x) h = keep h
  wake_getter-IsAsleep s s' keep p h = tt

  wake_putter-IsAsleep :
      (s s' : Queue A)
      → ((g : A → Bool) → can_get g s ≡ false → can_get g s' ≡ false)
      → (p : Pc A) → IsAsleep s p
      → IsAsleep s' (wake_putter p)
  wake_putter-IsAsleep s s' keep idle h = tt
  wake_putter-IsAsleep s s' keep (waiting_get g) h = keep g h
  wake_putter-IsAsleep s s' keep p h = tt

  finish_get-IsQuiet :
      (s : System A) (i : ℕ) (f : A → Bool) → IsQuiet s → IsQuiet (finish_get s i (get f s.queue))
  unfolding finish_get
  finish_get-IsQuiet s i f h = elim (Bool-cases (get f s.queue).2) [
    | inl told ↦ rw told (
        All-map _ _ wake_putter (wake_putter-IsAsleep s.queue after (λ g. get-can_get f g s.queue))
          _ back)
    | inr quiet ↦ rw quiet (All-imp _ _ (kept quiet) _ back)
  ]
    where
      after : Queue A
      after = (get f s.queue).0

      back : All (IsAsleep s.queue) (set s.threads i idle)
      back = All-set (IsAsleep s.queue) s.threads i idle h tt

      kept : (get f s.queue).2 ≡ false → (p : Pc A) → IsAsleep s.queue p → IsAsleep after p
      kept quiet idle h = tt
      kept quiet (waiting_get g) h = get-can_get f g s.queue h
      kept quiet (waiting_put x) h = get-can_put f s.queue quiet h
      kept quiet p h = tt

  move-IsQuiet :
      (s : System A) (i : ℕ) (p : Pc A) → IsQuiet s → IsAsleep s.queue p → IsQuiet (move s i p)
  unfolding move
  move-IsQuiet s i p h a = All-set (IsAsleep s.queue) s.threads i p h a

  run_get-IsQuiet : (s : System A) (i : ℕ) (f : A → Bool) → IsQuiet s → IsQuiet (run_get s i f)
  unfolding run_get
  run_get-IsQuiet s i f h = elim (Bool-cases (can_get f s.queue)) [
    | inl now ↦ rw now (finish_get-IsQuiet s i f h)
    | inr later ↦ rw later (move-IsQuiet s i (waiting_get f) h later)
  ]

  put-can_put : (x : A) (s : Queue A) → can_put s ≡ false → can_put (put x s) ≡ false
  unfolding put can_put
  put-can_put x s h = ground (arith, length-append s.q (x ∷ []))

  finish_put-IsQuiet : (s : System A) (i : ℕ) (x : A) → IsQuiet s → IsQuiet (finish_put s i x)
  unfolding finish_put
  finish_put-IsQuiet s i x h =
      All-map _ _ wake_getter (wake_getter-IsAsleep s.queue (put x s.queue) (put-can_put x s.queue))
        _ (All-set (IsAsleep s.queue) s.threads i idle h tt)

  run_put-IsQuiet :
      (s : System A) (i : ℕ) (blocking : Bool) (x : A)
      → IsQuiet s
      → IsQuiet (run_put s i blocking x)
  unfolding run_put
  run_put-IsQuiet s i blocking x h = elim (Bool-cases (refuses blocking s.queue)) [
    | inl refused ↦ rw refused (move-IsQuiet s i idle h tt)
    | inr on ↦ rw on (elim (Bool-cases (can_put s.queue)) [
      | inl now ↦ rw now (finish_put-IsQuiet s i x h)
      | inr later ↦ rw later (move-IsQuiet s i (waiting_put x) h later)
    ])
  ]

  run_close-IsQuiet : (s : System A) → IsQuiet s → IsQuiet (run_close s)
  unfolding run_close
  run_close-IsQuiet s h =
      All-map _ _ wake_getter
        (wake_getter-IsAsleep s.queue (close s.queue) (unfold close can_put in λ e. e)) _ h

  act-IsQuiet : (s : System A) (i : ℕ) (p : Pc A) (a : Action A) → IsQuiet s → IsQuiet (act s i p a)
  unfolding act
  act-IsQuiet s i idle (calls_get f) h = move-IsQuiet s i (getting f) h tt
  act-IsQuiet s i idle (calls_put b x) h = move-IsQuiet s i (putting b x) h tt
  act-IsQuiet s i idle calls_close h = run_close-IsQuiet s h
  act-IsQuiet s i (getting f) runs h = run_get-IsQuiet s i f h
  act-IsQuiet s i (putting b x) runs h = run_put-IsQuiet s i b x h
  act-IsQuiet s i (waiting_get f) wakes h = move-IsQuiet s i (getting f) h tt
  act-IsQuiet s i (waiting_put x) wakes h = move-IsQuiet s i (putting true x) h tt
  act-IsQuiet s i p a h = h

  turn-IsQuiet : (s : System A) (a : ℕ × Action A) → IsQuiet s → IsQuiet (turn s a)
  unfolding turn
  turn-IsQuiet s (i, a) h = elim (Option-cases (get_elem? s.threads i)) [
    | inl none_there ↦ rw (none_there, turn) h
    | inr (p, e) ↦ rw (e, turn) (act-IsQuiet s i p a h)
  ]

  run-IsQuiet : (s : System A) (hist : List (ℕ × Action A)) → IsQuiet s → IsQuiet (run s hist)
  unfolding run
  run-IsQuiet s [] h = h
  run-IsQuiet s (a ∷ hist) h = run-IsQuiet (turn s a) hist (turn-IsQuiet s a h)

  idles-IsAsleep : (s : Queue A) (ts : List (Unit {0})) → All (IsAsleep s) (idles ts)
  idles-IsAsleep s [] = tt
  idles-IsAsleep s (t ∷ ts) = (tt, idles-IsAsleep s ts)

  -- After any history of any number of threads, no thread sleeps in `get` or `put` while the
  -- predicate that it waits for is true.
  pub no_lost_wakeup :
      (sz : ℤ) (ts : List (Unit {0})) (hist : List (ℕ × Action A))
      → IsQuiet (run (start sz ts) hist)
  unfolding start
  no_lost_wakeup sz ts hist = run-IsQuiet _ hist (idles-IsAsleep _ ts)
