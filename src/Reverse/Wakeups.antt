-- ===== src/Reverse/Wakeups.antt =====
-- No reader sleeps beside bytes to read: what each step does to who is asleep and to the condition of the wait.
use hodgepodge.Prelude.{
  ℕ, ◌≡◌, ◌⊎◌, inl, inr, refl, ap, ◌∙◌, Bool, true, false, List, Option, none, some, ◌==◌, length,
  Bool-cases, arith,
}
use hodgepodge.Reverse.{
  failed, restart_sys, Buffer, Thread, idle, locking, checking, waiting, asleep, entering, filling,
  ending, rewinding, waking, leaving, returned, Event, read, write, go, signal, fault_out, fault_in,
  awake, wakes, is_empty, with_lock, with_data, overwrite, copy_out, check, lock_interruptible,
  acquire, wait, begin_write, start, fill, interrupt, thread_step,
}
use hodgepodge.Reverse.Lock.{holds, Holding, on_go-Holding}
use hodgepodge.Reverse.Invariant.{maybe_awake, awake-cases}

abbrev pub sleeps : Thread → Bool
sleeps (asleep size nonblock) = true
sleeps t = false

-- A writer that has moved a pointer and has not woken the readers.
abbrev pub announces : Thread → Bool
announces (rewinding xs) = true
announces (waking xs) = true
announces t = false

pub record Notice (t : Thread) (b : Buffer) (t' : Thread) (b' : Buffer) : Type 0 where
  pub sleeping : sleeps t' ≡ true → is_empty b' ≡ true
  pub keeps :
      ((announces t ≡ false) × (is_empty b ≡ true → is_empty b' ≡ true))
      ⊎ ((announces t' ≡ true) ⊎ (wakes t ≡ true))

-- A step that leaves the pointers alone.
calm :
    (t : Thread) (b : Buffer) (t' : Thread) (b' : Buffer)
    → sleeps t' ≡ false
    → announces t ≡ false
    → is_empty b' ≡ is_empty b
    → Notice t b t' b'
calm t b t' b' h k e = record { sleeping = λ u. cc; keeps = inl (k, λ u. e ∙ u) }

start-Notice :
    (limit : ℕ) (t : Thread) (event : Event) (b : Buffer)
    → announces t ≡ false
    → Holding (start limit event b) (Notice t b)
start-Notice limit t (read size nonblock) b h = calm t b (locking size nonblock) b refl h refl
start-Notice limit t (write xs) b h = calm t b (begin_write limit xs) b (ground arith) h refl
start-Notice limit t go b h = tt
start-Notice limit t signal b h = tt
start-Notice limit t fault_out b h = tt
start-Notice limit t (fault_in xs) b h = tt

acquire-Notice :
    (i : ℕ) (t next : Thread) (b : Buffer) (lock : Option ℕ)
    → announces t ≡ false
    → sleeps next ≡ false
    → Holding (acquire i next lock b) (Notice t b)
acquire-Notice i t next b none h k = calm t b next (with_lock (some i) b) k h refl
acquire-Notice i t next b (some holder) h k = tt

lock-Notice :
    (i : ℕ) (t next : Thread) (event : Event) (b : Buffer)
    → announces t ≡ false
    → sleeps next ≡ false
    → Holding (lock_interruptible i next event b) (Notice t b)
lock-Notice i t next go b h k = acquire-Notice i t next b b.lock h k
lock-Notice i t next signal b h k = calm t b (returned (failed restart_sys)) b refl h refl
lock-Notice i t next (read size nonblock) b h k = tt
lock-Notice i t next (write xs) b h k = tt
lock-Notice i t next fault_out b h k = tt
lock-Notice i t next (fault_in xs) b h k = tt

wait-Notice :
    (t : Thread) (size : ℕ) (nonblock : Bool) (event : Event) (b : Buffer)
    → announces t ≡ false
    → Holding (wait size nonblock event b) (Notice t b)
wait-Notice t size nonblock go b h = elim (Bool-cases (is_empty b)) [
  | inl e ↦ rw e (record { sleeping = λ u. e; keeps = inl (h, λ u. u) })
  | inr e ↦ rw e (calm t b (locking size nonblock) b refl h refl)
]
wait-Notice t size nonblock signal b h = elim (Bool-cases (is_empty b)) [
  | inl e ↦ rw e (calm t b (returned (failed restart_sys)) b refl h refl)
  | inr e ↦ rw e (calm t b (locking size nonblock) b refl h refl)
]
wait-Notice t size nonblock (read n m) b h = tt
wait-Notice t size nonblock (write xs) b h = tt
wait-Notice t size nonblock fault_out b h = tt
wait-Notice t size nonblock (fault_in xs) b h = tt

interrupt-Notice :
    (size : ℕ) (nonblock : Bool) (event : Event) (b : Buffer)
    → Holding (interrupt size nonblock event b) (Notice (asleep size nonblock) b)
interrupt-Notice size nonblock go b = tt
interrupt-Notice size nonblock signal b =
    wait-Notice (asleep size nonblock) size nonblock signal b refl
interrupt-Notice size nonblock (read n m) b = tt
interrupt-Notice size nonblock (write xs) b = tt
interrupt-Notice size nonblock fault_out b = tt
interrupt-Notice size nonblock (fault_in xs) b = tt

copy_out-Notice :
    (t : Thread) (size : ℕ) (event : Event) (b : Buffer) (r e : Option ℕ)
    → announces t ≡ false
    → is_empty b ≡ false
    → Holding (copy_out size event r e b) (Notice t b)
unfolding copy_out
copy_out-Notice t size go b none e h k = tt
copy_out-Notice t size go b (some r) none h k = tt
copy_out-Notice t size go b (some r) (some e) h k = record {
  sleeping = λ u. cc;
  keeps = inl (h, λ u. cc);
}
copy_out-Notice t size fault_out b none e h k = tt
copy_out-Notice t size fault_out b (some r) none h k = tt
copy_out-Notice t size fault_out b (some r) (some e) h k = calm t b (leaving _) b refl h refl
copy_out-Notice t size signal b r e h k = tt
copy_out-Notice t size (read n m) b r e h k = tt
copy_out-Notice t size (write xs) b r e h k = tt
copy_out-Notice t size (fault_in xs) b r e h k = tt

check-Notice :
    (size : ℕ) (nonblock : Bool) (event : Event) (b : Buffer)
    → Holding (check size nonblock event b) (Notice (checking size nonblock) b)
unfolding check
check-Notice size nonblock event b = elim (Bool-cases (is_empty b)) [
  | inl e ↦ rw e (calm (checking size nonblock) b _ (with_lock none b) (ground arith) refl refl)
  | inr e ↦ rw e (copy_out-Notice (checking size nonblock) size event b b.read_ptr b.end refl e)
]

fill-Notice :
    (xs : List ℕ) (event : Event) (b : Buffer) → Holding (fill xs event b) (Notice (filling xs) b)
fill-Notice xs go b =
    calm (filling xs) b (ending xs) (with_data (overwrite xs b.data_bytes) b) refl refl refl
fill-Notice xs (fault_in left) b = elim (Bool-cases (length left == length xs)) [
  | inl e ↦ rw e (calm (filling xs) b _ (with_data (overwrite left b.data_bytes) b) refl refl refl)
  | inr e ↦ rw e tt
]
fill-Notice xs (read n m) b = tt
fill-Notice xs (write ys) b = tt
fill-Notice xs signal b = tt
fill-Notice xs fault_out b = tt

pub thread_step-Notice :
    (limit i : ℕ) (event : Event) (t : Thread) (b : Buffer)
    → Holding (thread_step limit i event t b) (Notice t b)
unfolding thread_step
thread_step-Notice limit i event idle b = start-Notice limit idle event b refl
thread_step-Notice limit i event (returned r) b = start-Notice limit (returned r) event b refl
thread_step-Notice limit i event (locking size nonblock) b =
    lock-Notice i (locking size nonblock) (checking size nonblock) event b refl refl
thread_step-Notice limit i event (checking size nonblock) b = check-Notice size nonblock event b
thread_step-Notice limit i event (waiting size nonblock) b =
    wait-Notice (waiting size nonblock) size nonblock event b refl
thread_step-Notice limit i event (asleep size nonblock) b = interrupt-Notice size nonblock event b
thread_step-Notice limit i event (entering xs) b =
    lock-Notice i (entering xs) (filling xs) event b refl refl
thread_step-Notice limit i event (filling xs) b = fill-Notice xs event b
thread_step-Notice limit i event (ending xs) b =
    on_go-Holding event _ _ (Notice (ending xs) b)
      (record { sleeping = λ u. cc; keeps = inr (inl refl) })
thread_step-Notice limit i event (rewinding xs) b =
    on_go-Holding event _ _ (Notice (rewinding xs) b)
      (record { sleeping = λ u. cc; keeps = inr (inl refl) })
thread_step-Notice limit i event (waking xs) b =
    on_go-Holding event _ _ (Notice (waking xs) b)
      (record { sleeping = λ u. cc; keeps = inr (inr refl) })
thread_step-Notice limit i event (leaving r) b =
    on_go-Holding event _ _ (Notice (leaving r) b)
      (calm (leaving r) b (returned r) (with_lock none b) refl refl refl)

-- Nobody is asleep after a wake-up.
awake-sleeps : (t : Thread) → sleeps (awake t) ≡ false
awake-sleeps idle = refl
awake-sleeps (locking size nonblock) = refl
awake-sleeps (checking size nonblock) = refl
awake-sleeps (waiting size nonblock) = refl
awake-sleeps (asleep size nonblock) = refl
awake-sleeps (entering xs) = refl
awake-sleeps (filling xs) = refl
awake-sleeps (ending xs) = refl
awake-sleeps (rewinding xs) = refl
awake-sleeps (waking xs) = refl
awake-sleeps (leaving r) = refl
awake-sleeps (returned r) = refl

pub maybe_awake-sleeps :
    (woken : Bool) (t : Thread)
    → sleeps (maybe_awake woken t) ≡ true
    → (woken ≡ false) × (sleeps t ≡ true)
maybe_awake-sleeps false t h = (refl, h)
maybe_awake-sleeps true t h = absurd (cc (awake-sleeps t))

pub announces-maybe_awake :
    (woken : Bool) (t : Thread) → announces (maybe_awake woken t) ≡ announces t
announces-maybe_awake false t = refl
announces-maybe_awake true t = elim (awake-cases t) [
  | inl e ↦ ap announces e
  | inr (n, m, e, e') ↦ rw (e', e) refl
]

-- A writer announces with the lock.
pub announces-holds : (t : Thread) → announces t ≡ true → holds t ≡ true
announces-holds (rewinding xs) h = refl
announces-holds (waking xs) h = refl
announces-holds idle h = cc
announces-holds (locking size nonblock) h = cc
announces-holds (checking size nonblock) h = cc
announces-holds (waiting size nonblock) h = cc
announces-holds (asleep size nonblock) h = cc
announces-holds (entering xs) h = cc
announces-holds (filling xs) h = cc
announces-holds (ending xs) h = cc
announces-holds (leaving r) h = cc
announces-holds (returned r) h = cc
