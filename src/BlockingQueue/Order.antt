-- ===== src/BlockingQueue/Order.antt =====
-- First in, first out, for readers that do not choose; and what a sleeping thread rules out.
use mathlib.Core.List.{append_assoc}
use hodgepodge.Prelude.{
  ℕ, ◌≡◌, refl, ap, ◌∙◌, Bool, true, false, List, [], ◌∷◌, ◌++◌, map, arith, All, All-set, All-map,
  All-get_elem?, Option-cases, Bool-cases, get_elem?, set, ℤ, inl, inr, if◌then◌else◌,
}
use hodgepodge.BlockingQueue.{Queue, refuses, can_get, take_it, get, can_put, put, close, init}
use hodgepodge.BlockingQueue.Calls.{note_size-q}
use hodgepodge.BlockingQueue.Threads.{
  Pc, idle, getting, waiting_get, putting, waiting_put, Action, calls_get, calls_put, calls_close,
  runs, wakes, System, outgoing, wake_getter, wake_putter, move, finish_get, run_get, finish_put,
  run_put, run_close, act, turn, run, start, idles,
}

module _ {ℓ} {A : Type ℓ} where
  -- A filter that takes anything, as that of the one-argument `get`.
  abbrev pub TakesAny : (A → Bool) → Type ℓ
  TakesAny f = (x : A) → f x ≡ true

  abbrev pub IsPlain : ℕ × Action A → Type ℓ
  IsPlain (i, calls_get f) = TakesAny f
  IsPlain (i, a) = Unit

  abbrev IsPlainPc : Pc A → Type ℓ
  IsPlainPc (getting f) = TakesAny f
  IsPlainPc (waiting_get f) = TakesAny f
  IsPlainPc p = Unit

  get-plain :
      (f : A → Bool) (s : Queue A) (xs : List A)
      → TakesAny f
      → s.q ≡ xs
      → xs ≡ outgoing (get f s).1 ++ (get f s).0.q
  unfolding get take_it
  get-plain f s [] any e = ground (arith, note_size-q s)
  get-plain f s (x ∷ xs) any e = ground (arith, note_size-q s, any x)

  record InOrder (s : System A) : Type ℓ where
    plain : All IsPlainPc s.threads
    order : s.accepted ≡ s.delivered ++ s.queue.q

  wake_getter-IsPlainPc : (p : Pc A) → IsPlainPc p → IsPlainPc (wake_getter p)
  wake_getter-IsPlainPc (waiting_get f) h = h
  wake_getter-IsPlainPc (getting f) h = h
  wake_getter-IsPlainPc p h = tt

  wake_putter-IsPlainPc : (p : Pc A) → IsPlainPc p → IsPlainPc (wake_putter p)
  wake_putter-IsPlainPc (waiting_get f) h = h
  wake_putter-IsPlainPc (getting f) h = h
  wake_putter-IsPlainPc p h = tt

  move-InOrder : (s : System A) (i : ℕ) (p : Pc A) → IsPlainPc p → InOrder s → InOrder (move s i p)
  unfolding move
  move-InOrder s i p h v = record {
    plain = All-set IsPlainPc s.threads i p v.plain h;
    order = v.order;
  }

  run_get-InOrder :
      (s : System A) (i : ℕ) (f : A → Bool) → TakesAny f → InOrder s → InOrder (run_get s i f)
  unfolding run_get finish_get
  run_get-InOrder s i f any v = elim (Bool-cases (can_get f s.queue)) [
    | inl now ↦ rw now (record { plain = woken (get f s.queue).2; order = order })
    | inr later ↦ rw later (move-InOrder s i (waiting_get f) any v)
  ]
    where
      back : All IsPlainPc (set s.threads i idle)
      back = All-set IsPlainPc s.threads i idle v.plain tt

      woken :
          (b : Bool)
          → All IsPlainPc
              (if b then map wake_putter (set s.threads i idle) else set s.threads i idle)
      woken true = All-map IsPlainPc IsPlainPc wake_putter wake_putter-IsPlainPc _ back
      woken false = back

      order : s.accepted ≡ (s.delivered ++ outgoing (get f s.queue).1) ++ (get f s.queue).0.q
      order =
          rw append_assoc (v.order ∙ ap (◌++◌ s.delivered) (get-plain f s.queue s.queue.q any refl))

  run_put-InOrder :
      (s : System A) (i : ℕ) (b : Bool) (x : A) → InOrder s → InOrder (run_put s i b x)
  unfolding run_put finish_put
  run_put-InOrder s i b x v = elim (Bool-cases (refuses b s.queue)) [
    | inl refused ↦ rw refused (move-InOrder s i idle tt v)
    | inr on ↦ rw on (elim (Bool-cases (can_put s.queue)) [
      | inl now ↦ rw now (record {
        plain =
            All-map IsPlainPc IsPlainPc wake_getter wake_getter-IsPlainPc _
              (All-set IsPlainPc s.threads i idle v.plain tt);
        order =
            unfold put in
            ap (λ l. l ++ x ∷ []) v.order ∙ append_assoc s.delivered s.queue.q (x ∷ []);
      })
      | inr later ↦ rw later (move-InOrder s i (waiting_put x) tt v)
    ])
  ]

  act-InOrder :
      (s : System A) (i : ℕ) (p : Pc A) (a : Action A)
      → IsPlain (i, a)
      → IsPlainPc p
      → InOrder s
      → InOrder (act s i p a)
  unfolding act run_close close
  act-InOrder s i idle (calls_get f) h k v = move-InOrder s i (getting f) h v
  act-InOrder s i idle (calls_put b x) h k v = move-InOrder s i (putting b x) tt v
  act-InOrder s i idle calls_close h k v = record {
    plain = All-map IsPlainPc IsPlainPc wake_getter wake_getter-IsPlainPc _ v.plain;
    order = v.order;
  }
  act-InOrder s i (getting f) runs h k v = run_get-InOrder s i f k v
  act-InOrder s i (putting b x) runs h k v = run_put-InOrder s i b x v
  act-InOrder s i (waiting_get f) wakes h k v = move-InOrder s i (getting f) k v
  act-InOrder s i (waiting_put x) wakes h k v = move-InOrder s i (putting true x) tt v
  act-InOrder s i p a h k v = v

  turn-InOrder : (s : System A) (a : ℕ × Action A) → IsPlain a → InOrder s → InOrder (turn s a)
  unfolding turn
  turn-InOrder s (i, a) h v = elim (Option-cases (get_elem? s.threads i)) [
    | inl none_there ↦ rw (none_there, turn) v
    | inr (p, e) ↦
        rw (e, turn) (act-InOrder s i p a h (All-get_elem? IsPlainPc s.threads i v.plain e) v)
  ]

  run-InOrder :
      (s : System A) (hist : List (ℕ × Action A))
      → All IsPlain hist
      → InOrder s
      → InOrder (run s hist)
  unfolding run
  run-InOrder s [] h v = v
  run-InOrder s (a ∷ hist) h v = run-InOrder (turn s a) hist h.1 (turn-InOrder s a h.0 v)

idles-IsPlainPc {ℓ} : (A : Type ℓ) (ts : List (Unit {0})) → All (IsPlainPc {A = A}) (idles ts)
idles-IsPlainPc A [] = tt
idles-IsPlainPc A (t ∷ ts) = (tt, idles-IsPlainPc A ts)

module _ {ℓ} {A : Type ℓ} where
  -- While every call of `get` has a filter that takes anything, the elements accepted are, in their
  -- order, the ones delivered and then the ones still in the queue, after any history of any
  -- number of threads.
  pub first_in_first_out :
      (sz : ℤ) (ts : List (Unit {0})) (hist : List (ℕ × Action A))
      → All IsPlain hist
      → (run (start sz ts) hist).accepted
        ≡ (run (start sz ts) hist).delivered ++ (run (start sz ts) hist).queue.q
  unfolding start init
  first_in_first_out sz ts hist h =
      (run-InOrder _ hist h (record { plain = idles-IsPlainPc A ts; order = refl })).order
