-- ===== src/Reverse.antt =====
-- kernel_module/hello.c: the character device "reverse", which holds the bytes of the last write until they
-- are read. Any number of threads are in its calls at once; a step of the system is a step of one of them,
-- up to the next place where another thread can notice. A pointer into the buffer is its offset in `data`,
-- and `none` is NULL.
pub mod Lock
pub mod Steps
pub mod Invariant
pub mod Wakeups
pub mod Runs
pub mod Release
pub mod Windows
pub mod Stream
pub mod Queue
use hodgepodge.Prelude.{
  ◌>>=◌, ℕ, zero, suc, ◌+◌, ◌-◌, ◌≡◌, Bool, true, false, not, List, [], ◌∷◌, ◌++◌, Option, none,
  some, ltb, ◌==◌, if◌then◌else◌, take, drop, length, replicate, ◌&&◌,
}

pub data Errno : Type 0 where
  restart_sys : Errno
  again : Errno
  fault : Errno
  too_big : Errno

-- What a call returns: the bytes that a read has copied out, the count of a write, or a negative error.
pub data Returned : Type 0 where
  bytes : List ℕ → Returned
  count : ℕ → Returned
  failed : Errno → Returned

-- The struct `buffer`, with the holder of the mutex. The wait queue is the threads that are asleep.
pub record Buffer : Type 0 where
  pub data_bytes : List ℕ
  pub end : Option ℕ
  pub read_ptr : Option ℕ
  pub size : ℕ
  pub lock : Option ℕ

-- Where a thread is. In a read of `size` bytes, with O_NONBLOCK or not:
pub data Thread : Type 0 where
  idle : Thread
  -- at `mutex_lock_interruptible`, the first or the one in the loop;
  locking : ℕ → Bool → Thread
  -- with the lock, at the test of the loop;
  checking : ℕ → Bool → Thread
  -- in `wait_event_interruptible`, at the test of its condition, and asleep.
  waiting : ℕ → Bool → Thread
  asleep : ℕ → Bool → Thread
  -- In a write of the bytes, at `mutex_lock_interruptible`;
  entering : List ℕ → Thread
  -- with the lock, at `copy_from_user`, at the two writes of the pointers, and at the wake-up.
  filling : List ℕ → Thread
  ending : List ℕ → Thread
  rewinding : List ℕ → Thread
  waking : List ℕ → Thread
  -- With the lock, at `out_unlock`; and after the call.
  leaving : Returned → Thread
  returned : Returned → Thread

-- What happens in a step: the thread starts a call; the thread goes on; a signal interrupts it; the copy to
-- the user fails; or the copy from the user fails and leaves the bytes.
pub data Event : Type 0 where
  read : ℕ → Bool → Event
  write : List ℕ → Event
  go : Event
  signal : Event
  fault_out : Event
  fault_in : List ℕ → Event

pub record System : Type 0 where
  pub buffer : Buffer
  pub threads : ℕ → Thread

abbrev pub same_pointer : Option ℕ → Option ℕ → Bool
same_pointer none none = true
same_pointer none (some e) = false
same_pointer (some r) none = false
same_pointer (some r) (some e) = r == e

abbrev pub is_empty : Buffer → Bool
is_empty b = same_pointer b.read_ptr b.end

abbrev pub with_lock : Option ℕ → Buffer → Buffer
with_lock l b = record {
  data_bytes = b.data_bytes;
  end = b.end;
  read_ptr = b.read_ptr;
  size = b.size;
  lock = l;
}

abbrev pub with_data : List ℕ → Buffer → Buffer
with_data xs b = record {
  data_bytes = xs;
  end = b.end;
  read_ptr = b.read_ptr;
  size = b.size;
  lock = b.lock;
}

abbrev pub with_end : ℕ → Buffer → Buffer
with_end e b = record {
  data_bytes = b.data_bytes;
  end = some e;
  read_ptr = b.read_ptr;
  size = b.size;
  lock = b.lock;
}

abbrev pub with_read_ptr : ℕ → Buffer → Buffer
with_read_ptr r b = record {
  data_bytes = b.data_bytes;
  end = b.end;
  read_ptr = some r;
  size = b.size;
  lock = b.lock;
}

-- The bytes over the start of the buffer.
abbrev pub overwrite : List ℕ → List ℕ → List ℕ
overwrite xs old = xs ++ drop (length xs) old

abbrev pub at_most : ℕ → ℕ → ℕ
at_most m n = if ltb m n then m else n

-- The rest of a read, from `size = min(...)` on; a difference of NULL has no value.
unfoldable pub copy_out : ℕ → Event → Option ℕ → Option ℕ → Buffer → Option (Thread × Buffer)
copy_out size go (some r) (some e) b =
    let n = at_most size (e - r) in
    some (leaving (bytes (take n (drop r b.data_bytes))), with_read_ptr (r + n) b)
copy_out size fault_out (some r) (some e) b = some (leaving (failed fault), b)
copy_out size event read_ptr end b = none

-- The test of the loop in `reverse_read`.
unfoldable pub check : ℕ → Bool → Event → Buffer → Option (Thread × Buffer)
unfolding copy_out
check size nonblock event b =
    if is_empty b
    then some
        (if nonblock then returned (failed again) else waiting size nonblock, with_lock none b)
    else copy_out size event b.read_ptr b.end b

-- `mutex_lock_interruptible` by a thread, and where it goes on with the lock.
abbrev pub acquire : ℕ → Thread → Option ℕ → Buffer → Option (Thread × Buffer)
acquire i next none b = some (next, with_lock (some i) b)
acquire i next (some holder) b = none

abbrev pub lock_interruptible : ℕ → Thread → Event → Buffer → Option (Thread × Buffer)
lock_interruptible i next go b = acquire i next b.lock b
lock_interruptible i next signal b = some (returned (failed restart_sys), b)
lock_interruptible i next event b = none

-- The test of the condition in `wait_event_interruptible`, which the thread makes when it comes and when it
-- is woken; a signal ends the wait only where the condition does not hold.
abbrev pub wait : ℕ → Bool → Event → Buffer → Option (Thread × Buffer)
wait size nonblock go b =
    some (if is_empty b then asleep size nonblock else locking size nonblock, b)
wait size nonblock signal b =
    some (if is_empty b then returned (failed restart_sys) else locking size nonblock, b)
wait size nonblock event b = none

-- The start of `reverse_write`, with the module's `buffer_size`.
abbrev pub begin_write : ℕ → List ℕ → Thread
begin_write buffer_size xs =
    if ltb buffer_size (length xs) then returned (failed too_big) else entering xs

-- A thread between two calls.
abbrev pub start : ℕ → Event → Buffer → Option (Thread × Buffer)
start buffer_size (read size nonblock) b = some (locking size nonblock, b)
start buffer_size (write xs) b = some (begin_write buffer_size xs, b)
start buffer_size event b = none

abbrev pub fill : List ℕ → Event → Buffer → Option (Thread × Buffer)
fill xs go b = some (ending xs, with_data (overwrite xs b.data_bytes) b)
fill xs (fault_in left) b =
    if length left == length xs
    then some (leaving (failed fault), with_data (overwrite left b.data_bytes) b)
    else none
fill xs event b = none

-- Asleep, a thread goes on by itself only at a signal.
abbrev pub interrupt : ℕ → Bool → Event → Buffer → Option (Thread × Buffer)
interrupt size nonblock signal b = wait size nonblock signal b
interrupt size nonblock event b = none

abbrev pub on_go : Event → Thread × Buffer → Option (Thread × Buffer)
on_go go result = some result
on_go event result = none

-- One step of a thread in `reverse_read` or `reverse_write`.
unfoldable pub thread_step : ℕ → ℕ → Event → Thread → Buffer → Option (Thread × Buffer)
unfolding check
thread_step buffer_size i event idle b = start buffer_size event b
thread_step buffer_size i event (returned r) b = start buffer_size event b
thread_step buffer_size i event (locking size nonblock) b =
    lock_interruptible i (checking size nonblock) event b
thread_step buffer_size i event (checking size nonblock) b = check size nonblock event b
thread_step buffer_size i event (waiting size nonblock) b = wait size nonblock event b
thread_step buffer_size i event (asleep size nonblock) b = interrupt size nonblock event b
thread_step buffer_size i event (entering xs) b = lock_interruptible i (filling xs) event b
thread_step buffer_size i event (filling xs) b = fill xs event b
thread_step buffer_size i event (ending xs) b = on_go event (rewinding xs, with_end (length xs) b)
thread_step buffer_size i event (rewinding xs) b = on_go event (waking xs, with_read_ptr 0 b)
thread_step buffer_size i event (waking xs) b = on_go event (leaving (count (length xs)), b)
thread_step buffer_size i event (leaving r) b = on_go event (returned r, with_lock none b)

-- `wake_up_interruptible`: who is asleep tests its condition again.
abbrev pub awake : Thread → Thread
awake (asleep size nonblock) = waiting size nonblock
awake t = t

abbrev pub wakes : Thread → Bool
wakes (waking xs) = true
wakes t = false

abbrev pub update : (ℕ → Thread) → ℕ → Thread → ℕ → Thread
update threads i t j = if i == j then t else threads j

-- The system after a step of a thread.
abbrev pub after : System → ℕ → Thread → Buffer → System
after s i t b = record {
  buffer = b;
  threads = update (λ j. if wakes (s.threads i) then awake (s.threads j) else s.threads j) i t;
}

unfoldable pub step : ℕ → ℕ → Event → System → Option System
unfolding thread_step
step buffer_size i event s = thread_step buffer_size i event (s.threads i) s.buffer >>= λ result.
    some (after s i result.0 result.1)

-- The steps of a run: the thread and what happens.
unfoldable pub run : ℕ → List (ℕ × Event) → System → Option System
unfolding step
run buffer_size [] s = some s
run buffer_size ((i, event) ∷ events) s = step buffer_size i event s >>= run buffer_size events

-- `buffer_alloc`, where the two results say whether `kzalloc` has memory.
abbrev pub buffer_alloc : Bool → Bool → ℕ → Option Buffer
buffer_alloc got got_data size =
    if got && got_data
    then some (record {
      data_bytes = replicate size 0;
      end = none;
      read_ptr = none;
      size = size;
      lock = none;
    })
    else none

-- `reverse_init`, whose other result is -1.
abbrev pub reverse_init : Bool → Bool → ℕ → Option System
reverse_init got got_data buffer_size =
    if buffer_size == 0
    then none
    else buffer_alloc got got_data buffer_size >>= λ b.
        some (record { buffer = b; threads = λ i. idle })
