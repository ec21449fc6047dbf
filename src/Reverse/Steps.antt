-- ===== src/Reverse/Steps.antt =====
-- Each step of a thread with the mutex of the device: what it does with it, and what it leaves to the thread.
use hodgepodge.Prelude.{
  ℕ, ◌+◌, ◌-◌, ◌≤◌, ◌≡◌, refl, ap, Bool, true, false, List, [], ◌∷◌, ◌++◌, Option, none, some, ltb,
  ◌==◌, if◌then◌else◌, take, drop, length, arith, Bool-cases, inl, inr, subst, length-append,
  length-drop,
}
use hodgepodge.Reverse.{
  restart_sys, again, too_big, count, failed, Buffer, Thread, idle, locking, checking, waiting,
  asleep, entering, filling, ending, rewinding, waking, leaving, returned, Event, read, write, go,
  signal, fault_out, fault_in, is_empty, with_lock, with_end, with_read_ptr, overwrite, at_most,
  copy_out, check, lock_interruptible, acquire, wait, start, fill, interrupt, thread_step,
}
use hodgepodge.Reverse.Lock.{
  holds, Pointers, Settled, Fits, quiet, takes, works, frees, After, Holding, on_go-Holding,
}

take_of_append : (xs ys : List ℕ) → take (length xs) (xs ++ ys) ≡ xs
take_of_append [] ys = refl
take_of_append (x ∷ xs) ys = ap (◌∷◌ x) (take_of_append xs ys)

take-overwrite : (xs old : List ℕ) → take (length xs) (overwrite xs old) ≡ xs
take-overwrite xs old = take_of_append xs (drop (length xs) old)

length-overwrite :
    (xs old : List ℕ) → length xs ≤ length old → length (overwrite xs old) ≡ length old
length-overwrite xs old h =
    omega (arith, length-append xs (drop (length xs) old), length-drop (length xs) old, h)

module _ (limit i : ℕ) where
  -- A step that does not touch the lock or the buffer.
  quiet_step :
      (t t' : Thread) (b : Buffer)
      → holds t ≡ false
      → holds t' ≡ false
      → Fits limit t' b
      → After limit i t b t' b
  quiet_step t t' b h h' f = record {
    move = quiet h h' refl;
    fits = f;
    size_kept = refl;
    settled = λ k k'. cc;
  }

  start-After :
      (t : Thread) (event : Event) (b : Buffer)
      → holds t ≡ false
      → Holding (start limit event b) (After limit i t b)
  start-After t (read size nonblock) b h = quiet_step t (locking size nonblock) b h refl tt
  start-After t (write xs) b h = elim (Bool-cases (ltb limit (length xs))) [
    | inl e ↦ rw e (quiet_step t (returned (failed too_big)) b h refl tt)
    | inr e ↦ rw e (quiet_step t (entering xs) b h refl (ground arith))
  ]
  start-After t go b h = tt
  start-After t signal b h = tt
  start-After t fault_out b h = tt
  start-After t (fault_in xs) b h = tt

  acquire-After :
      (t next : Thread) (b : Buffer)
      → holds t ≡ false
      → holds next ≡ true
      → (b.lock ≡ none → Fits limit next (with_lock (some i) b))
      → (lock : Option ℕ) → b.lock ≡ lock
      → Holding (acquire i next lock b) (After limit i t b)
  acquire-After t next b h h' f none e = record {
    move = takes h h' e refl;
    fits = f e;
    size_kept = refl;
    settled = λ k k'. cc;
  }
  acquire-After t next b h h' f (some holder) e = tt

  lock-After :
      (t next : Thread) (event : Event) (b : Buffer)
      → holds t ≡ false
      → holds next ≡ true
      → (b.lock ≡ none → Fits limit next (with_lock (some i) b))
      → Holding (lock_interruptible i next event b) (After limit i t b)
  lock-After t next go b h h' f = acquire-After t next b h h' f b.lock refl
  lock-After t next signal b h h' f = quiet_step t (returned (failed restart_sys)) b h refl tt
  lock-After t next (read size nonblock) b h h' f = tt
  lock-After t next (write xs) b h h' f = tt
  lock-After t next fault_out b h h' f = tt
  lock-After t next (fault_in xs) b h h' f = tt

  wait-After :
      (t : Thread) (size : ℕ) (nonblock : Bool) (event : Event) (b : Buffer)
      → holds t ≡ false
      → Holding (wait size nonblock event b) (After limit i t b)
  wait-After t size nonblock go b h = elim (Bool-cases (is_empty b)) [
    | inl e ↦ rw e (quiet_step t (asleep size nonblock) b h refl tt)
    | inr e ↦ rw e (quiet_step t (locking size nonblock) b h refl tt)
  ]
  wait-After t size nonblock signal b h = elim (Bool-cases (is_empty b)) [
    | inl e ↦ rw e (quiet_step t (returned (failed restart_sys)) b h refl tt)
    | inr e ↦ rw e (quiet_step t (locking size nonblock) b h refl tt)
  ]
  wait-After t size nonblock (read n m) b h = tt
  wait-After t size nonblock (write xs) b h = tt
  wait-After t size nonblock fault_out b h = tt
  wait-After t size nonblock (fault_in xs) b h = tt

  interrupt-After :
      (t : Thread) (size : ℕ) (nonblock : Bool) (event : Event) (b : Buffer)
      → holds t ≡ false
      → Holding (interrupt size nonblock event b) (After limit i t b)
  interrupt-After t size nonblock go b h = tt
  interrupt-After t size nonblock signal b h = wait-After t size nonblock signal b h
  interrupt-After t size nonblock (read n m) b h = tt
  interrupt-After t size nonblock (write xs) b h = tt
  interrupt-After t size nonblock fault_out b h = tt
  interrupt-After t size nonblock (fault_in xs) b h = tt

  copied_inside :
      (r e : ℕ) (b : Buffer)
      → b.read_ptr ≡ some r
      → b.end ≡ some e
      → Settled limit b
      → (size : ℕ) → (r + at_most size (e - r) ≤ e) × (e ≤ limit)
  copied_inside r e b p q s size =
      let (u, v) : (r ≤ e) × (e ≤ limit) =
        subst (λ x. Pointers limit x (some e)) p (subst (λ y. Pointers limit b.read_ptr y) q s) in
      (ground arith, v)

  copy_out-After :
      (t : Thread) (size : ℕ) (event : Event) (b : Buffer)
      → holds t ≡ true
      → (r e : Option ℕ) → b.read_ptr ≡ r
      → b.end ≡ e
      → Settled limit b
      → Holding (copy_out size event r e b) (After limit i t b)
  unfolding copy_out
  copy_out-After t size go b h none none p q s = tt
  copy_out-After t size go b h none (some e) p q s = tt
  copy_out-After t size go b h (some r) none p q s = tt
  copy_out-After t size go b h (some r) (some e) p q s = record {
    move = works h refl refl;
    fits = rw q (copied_inside r e b p q s size);
    size_kept = refl;
    settled = λ k k'. cc;
  }
  copy_out-After t size fault_out b h none none p q s = tt
  copy_out-After t size fault_out b h none (some e) p q s = tt
  copy_out-After t size fault_out b h (some r) none p q s = tt
  copy_out-After t size fault_out b h (some r) (some e) p q s = record {
    move = works h refl refl;
    fits = s;
    size_kept = refl;
    settled = λ k k'. cc;
  }
  copy_out-After t size signal b h r e p q s = tt
  copy_out-After t size (read n m) b h r e p q s = tt
  copy_out-After t size (write xs) b h r e p q s = tt
  copy_out-After t size (fault_in xs) b h r e p q s = tt

  empty-After :
      (size : ℕ) (nonblock : Bool) (b : Buffer)
      → Settled limit b
      → After limit i
          (checking size nonblock)
          b
          (if nonblock then returned (failed again) else waiting size nonblock)
          (with_lock none b)
  empty-After size true b s = record {
    move = frees refl refl refl;
    fits = tt;
    size_kept = refl;
    settled = λ k k'. s;
  }
  empty-After size false b s = record {
    move = frees refl refl refl;
    fits = tt;
    size_kept = refl;
    settled = λ k k'. s;
  }

  check-After :
      (size : ℕ) (nonblock : Bool) (event : Event) (b : Buffer)
      → Settled limit b
      → Holding (check size nonblock event b) (After limit i (checking size nonblock) b)
  unfolding check
  check-After size nonblock event b s = elim (Bool-cases (is_empty b)) [
    | inl e ↦ rw e (empty-After size nonblock b s)
    | inr e ↦
        rw e
          (copy_out-After (checking size nonblock) size event b refl b.read_ptr b.end refl refl s)
  ]

  fill-After :
      (xs : List ℕ) (event : Event) (b : Buffer)
      → Fits limit (filling xs) b
      → length b.data_bytes ≡ limit
      → Holding (fill xs event b) (After limit i (filling xs) b)
  fill-After xs go b (s, l) d = record {
    move = works refl refl refl;
    fits = (s, l, take-overwrite xs b.data_bytes);
    size_kept = length-overwrite xs b.data_bytes (omega arith);
    settled = λ k k'. cc;
  }
  fill-After xs (fault_in left) b (s, l) d = elim (Bool-cases (length left == length xs)) [
    | inl e ↦ rw e (record {
      move = works refl refl refl;
      fits = s;
      size_kept = length-overwrite left b.data_bytes (ground arith);
      settled = λ k k'. cc;
    })
    | inr e ↦ rw e tt
  ]
  fill-After xs (read n m) b f d = tt
  fill-After xs (write ys) b f d = tt
  fill-After xs signal b f d = tt
  fill-After xs fault_out b f d = tt

  -- Every step of a thread, where it finds what it relies on.
  pub thread_step-After :
      (event : Event) (t : Thread) (b : Buffer)
      → Fits limit t b
      → (b.lock ≡ none → Settled limit b)
      → length b.data_bytes ≡ limit
      → Holding (thread_step limit i event t b) (After limit i t b)
  unfolding thread_step
  thread_step-After event idle b f s d = start-After idle event b refl
  thread_step-After event (returned r) b f s d = start-After (returned r) event b refl
  thread_step-After event (locking size nonblock) b f s d =
      lock-After (locking size nonblock) (checking size nonblock) event b refl refl s
  thread_step-After event (checking size nonblock) b f s d = check-After size nonblock event b f
  thread_step-After event (waiting size nonblock) b f s d =
      wait-After (waiting size nonblock) size nonblock event b refl
  thread_step-After event (asleep size nonblock) b f s d =
      interrupt-After (asleep size nonblock) size nonblock event b refl
  thread_step-After event (entering xs) b f s d =
      lock-After (entering xs) (filling xs) event b refl refl (λ e. (s e, f))
  thread_step-After event (filling xs) b f s d = fill-After xs event b f d
  thread_step-After event (ending xs) b (s0, l, e) s d =
      on_go-Holding event (rewinding xs) (with_end (length xs) b) (After limit i (ending xs) b)
        (record {
          move = works refl refl refl;
          fits = (refl, l, e);
          size_kept = refl;
          settled = λ k k'. cc;
        })
  thread_step-After event (rewinding xs) b (p, l, e) s d =
      on_go-Holding event (waking xs) (with_read_ptr 0 b) (After limit i (rewinding xs) b) (record {
        move = works refl refl refl;
        fits = (refl, p, l, e);
        size_kept = refl;
        settled = λ k k'. cc;
      })
  thread_step-After event (waking xs) b (p, q, l, e) s d =
      on_go-Holding event (leaving (count (length xs))) b (After limit i (waking xs) b) (record {
        move = works refl refl refl;
        fits = rw (p, q) (omega arith, l);
        size_kept = refl;
        settled = λ k k'. cc;
      })
  thread_step-After event (leaving r) b f s d =
      on_go-Holding event (returned r) (with_lock none b) (After limit i (leaving r) b)
        (record { move = frees refl refl refl; fits = tt; size_kept = refl; settled = λ k k'. f })
