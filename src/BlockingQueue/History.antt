-- ===== src/BlockingQueue/History.antt =====
-- What goes through the queue over a whole history: the bound, conservation and order.
use mathlib.Core.List.{append_assoc, Perm}
use mathlib.Core.List.Perm
use hodgepodge.Prelude.{
  ℕ, ◌≤◌, ◌<◌, ◌^◌, ◌≡◌, refl, subst, Bool, true, List, [], ◌∷◌, ◌++◌, arith, Option-cases,
  Bool-cases, get_elem?, pos, inl, inr, length, length-append, erase_at-perm, length-erase_at-le,
  size_of_int, ltb, ◌==◌, ◌&&◌, int_of_size-small,
}
use hodgepodge.BlockingQueue.{
  Queue, find_it, refuses, can_get, note_size, take_it, get, can_put, put, close,
}
use hodgepodge.BlockingQueue.Calls.{note_size-q}
use hodgepodge.BlockingQueue.Threads.{
  Pc, idle, getting, waiting_get, putting, waiting_put, Action, calls_get, calls_put, calls_close,
  runs, wakes, System, outgoing, move, finish_get, run_get, finish_put, run_put, run_close, act,
  turn, run, start,
}

module _ {ℓ} {A : Type ℓ} where
  -- What holds of a queue made with the limit `n`.
  pub record IsValid (n : ℕ) (s : Queue A) : Type 0 where
    pub limited : s.size_limit ≡ pos n
    pub room : length s.q ≤ n
    pub noted : (m : ℕ) × (s.max_size ≡ pos m) × (m ≤ n)

  note_size-IsValid : (n : ℕ) (s : Queue A) → n < 2 ^ 31 → IsValid n s → IsValid n (note_size s)
  unfolding note_size
  note_size-IsValid n s small v =
      let (m, e, le) = v.noted in
      elim (Bool-cases (ltb (size_of_int s.max_size) (length s.q))) [
        | inl grown ↦
            rw (grown, note_size)
              (record {
                limited = v.limited;
                room = v.room;
                noted =
                    (length s.q, int_of_size-small (length s.q) (omega (arith, v.room)), v.room);
              })
        | inr same ↦ rw (same, note_size) v
      ]

  take_it-IsValid : (n it : ℕ) (s : Queue A) → IsValid n s → IsValid n (take_it it s).0
  unfolding take_it
  take_it-IsValid n it s v = elim (Option-cases (get_elem? s.q it)) [
    | inl e ↦ rw (e, take_it) v
    | inr (x, e) ↦
        rw (e, take_it)
          (record {
            limited = v.limited;
            room = omega (arith, v.room, length-erase_at-le s.q it);
            noted = v.noted;
          })
  ]

  take_it-perm : (it : ℕ) (s : Queue A) → Perm s.q (outgoing (take_it it s).1 ++ (take_it it s).0.q)
  unfolding take_it
  take_it-perm it s = elim (Option-cases (get_elem? s.q it)) [
    | inl e ↦ rw (e, take_it) Perm.rfl
    | inr (x, e) ↦ rw (e, take_it) (erase_at-perm s.q it x e)
  ]

  get-IsValid :
      (n : ℕ) (f : A → Bool) (s : Queue A) → n < 2 ^ 31 → IsValid n s → IsValid n (get f s).0
  unfolding get
  get-IsValid n f s small v = elim (Bool-cases ((find_it f s.q == length s.q) && s.closed)) [
    | inl over ↦ rw over (note_size-IsValid n s small v)
    | inr on ↦
        rw on (take_it-IsValid n (find_it f s.q) (note_size s) (note_size-IsValid n s small v))
  ]

  get-perm : (f : A → Bool) (s : Queue A) → Perm s.q (outgoing (get f s).1 ++ (get f s).0.q)
  unfolding get
  get-perm f s = elim (Bool-cases ((find_it f s.q == length s.q) && s.closed)) [
    | inl over ↦ rw (over, note_size-q s) Perm.rfl
    | inr on ↦ rw on (
        subst (λ l. Perm l (outgoing (take_it it noted).1 ++ (take_it it noted).0.q))
          (note_size-q s) (take_it-perm it noted))
  ]
    where
      it : ℕ
      it = find_it f s.q

      noted : Queue A
      noted = note_size s

  -- The queue's invariant, and that what went in is what came out and what is still there.
  pub record IsSound (n : ℕ) (s : System A) : Type ℓ where
    pub valid : IsValid n s.queue
    pub conserved : Perm s.accepted (s.delivered ++ s.queue.q)

  run_get-IsSound :
      (n : ℕ) (s : System A) (i : ℕ) (f : A → Bool)
      → n < 2 ^ 31
      → IsSound n s
      → IsSound n (run_get s i f)
  unfolding run_get finish_get move
  run_get-IsSound n s i f small v = elim (Bool-cases (can_get f s.queue)) [
    | inl now ↦ rw now (record {
      valid = get-IsValid n f s.queue small v.valid;
      conserved =
          rw append_assoc
            (Perm.trans v.conserved (Perm.append_left s.delivered (get-perm f s.queue)));
    })
    | inr later ↦ rw later (record { valid = v.valid; conserved = v.conserved })
  ]

  put-IsValid : (n : ℕ) (x : A) (s : Queue A) → can_put s ≡ true → IsValid n s → IsValid n (put x s)
  unfolding put can_put
  put-IsValid n x s now v = record {
    limited = v.limited;
    room = ground (arith, v.limited, length-append s.q (x ∷ []));
    noted = v.noted;
  }

  run_put-IsSound :
      (n : ℕ) (s : System A) (i : ℕ) (b : Bool) (x : A) → IsSound n s → IsSound n (run_put s i b x)
  unfolding run_put finish_put move
  run_put-IsSound n s i b x v = elim (Bool-cases (refuses b s.queue)) [
    | inl refused ↦ rw refused (record { valid = v.valid; conserved = v.conserved })
    | inr on ↦ rw on (elim (Bool-cases (can_put s.queue)) [
      | inl now ↦ rw now (record {
        valid = put-IsValid n x s.queue now v.valid;
        conserved =
            unfold put in
            rw (← append_assoc s.delivered s.queue.q (x ∷ []))
              (Perm.append_right (x ∷ []) v.conserved);
      })
      | inr later ↦ rw later (record { valid = v.valid; conserved = v.conserved })
    ])
  ]

  pub act-IsSound :
      (n : ℕ) (s : System A) (i : ℕ) (p : Pc A) (a : Action A)
      → n < 2 ^ 31
      → IsSound n s
      → IsSound n (act s i p a)
  unfolding act move run_close close
  act-IsSound n s i idle (calls_get f) small v = record { valid = v.valid; conserved = v.conserved }
  act-IsSound n s i idle (calls_put b x) small v = record {
    valid = v.valid;
    conserved = v.conserved;
  }
  act-IsSound n s i idle calls_close small v = record {
    valid = record { limited = v.valid.limited; room = v.valid.room; noted = v.valid.noted };
    conserved = v.conserved;
  }
  act-IsSound n s i (getting f) runs small v = run_get-IsSound n s i f small v
  act-IsSound n s i (putting b x) runs small v = run_put-IsSound n s i b x v
  act-IsSound n s i (waiting_get f) wakes small v = record {
    valid = v.valid;
    conserved = v.conserved;
  }
  act-IsSound n s i (waiting_put x) wakes small v = record {
    valid = v.valid;
    conserved = v.conserved;
  }
  act-IsSound n s i p a small v = v

  pub turn-IsSound :
      (n : ℕ) (s : System A) (a : ℕ × Action A) → n < 2 ^ 31 → IsSound n s → IsSound n (turn s a)
  unfolding turn
  turn-IsSound n s (i, a) small v = elim (Option-cases (get_elem? s.threads i)) [
    | inl none_there ↦ rw (none_there, turn) v
    | inr (p, e) ↦ rw (e, turn) (act-IsSound n s i p a small v)
  ]

  run-IsSound :
      (n : ℕ) (s : System A) (hist : List (ℕ × Action A))
      → n < 2 ^ 31
      → IsSound n s
      → IsSound n (run s hist)
  unfolding run
  run-IsSound n s [] small v = v
  run-IsSound n s (a ∷ hist) small v =
      run-IsSound n (turn s a) hist small (turn-IsSound n s a small v)

  -- A queue made with a limit n that an int can hold: after any history of any number of threads it
  -- holds at most n elements, `max_size` is between 0 and n, and the elements accepted are,
  -- each as often, the ones delivered and the ones still in the queue.
  pub queue-IsSound :
      (n : ℕ) (ts : List (Unit {0})) (hist : List (ℕ × Action A))
      → n < 2 ^ 31
      → IsSound n (run (start (pos n) ts) hist)
  unfolding start
  queue-IsSound n ts hist small = run-IsSound n _ hist small (record {
    valid = record { limited = refl; room = omega arith; noted = (0, refl, omega arith) };
    conserved = Perm.rfl;
  })
