-- ===== src/Reverse/Stream.antt =====
-- The device against a queue of bytes: what the reads hand out is what the last write put in.
use hodgepodge.Prelude.{
  ℕ, ◌+◌, ◌-◌, ◌≡◌, inl, inr, refl, sym, ap, ap₂, ◌∙◌, Bool, true, false, List, [], ◌∷◌, ◌++◌,
  Option, none, some, subst, Bool-cases, take, drop, length, arith, if◌then◌else◌,
}
use hodgepodge.Reverse.{
  Buffer, Thread, idle, locking, checking, waiting, asleep, entering, filling, ending, rewinding,
  waking, leaving, returned, count, bytes, failed, again, fault, Event, read, write, go, signal,
  fault_out, fault_in, System, is_empty, thread_step, step, check, copy_out, with_lock, with_end,
  with_read_ptr, at_most, fill,
}
use hodgepodge.Reverse.Lock.{holds, Fits, Holding, on_go-Holding}
use hodgepodge.Reverse.Windows.{drop-drop, copied, remaining}

-- What the device does for its users: it takes the bytes of a write, and it hands out bytes to a read of the size.
pub data Deed : Type 0 where
  put : List ℕ → Deed
  took : ℕ → List ℕ → Deed

-- A queue that a write replaces and a read takes from the front of.
abbrev pub Replays : List Deed → List ℕ → List ℕ → Type 0
Replays [] q q' = q ≡ q'
Replays (put xs ∷ deeds) q q' = Replays deeds xs q'
Replays (took size xs ∷ deeds) q q' = (xs ≡ take size q) × Replays deeds (drop size q) q'

-- What a thread has done in a step, from where it was and where it is.
abbrev pub deed : Thread → Thread → List Deed
deed (rewinding xs) t' = put xs ∷ []
deed (checking size nonblock) (leaving (bytes xs)) = took size xs ∷ []
deed t t' = []

abbrev from_step : Option System → (System → List Deed) → List Deed
from_step none k = []
from_step (some s) k = k s

-- The deeds of a run, in their order.
unfoldable pub log : ℕ → List (ℕ × Event) → System → List Deed
unfolding step
log limit [] s = []
log limit ((i, event) ∷ events) s =
    from_step (step limit i event s)
      (λ s'. deed (s.threads i) (s'.threads i) ++ log limit events s')

abbrev pub between : Option ℕ → Option ℕ → List ℕ → List ℕ
between none e xs = []
between (some r) none xs = []
between (some r) (some e) xs = take (e - r) (drop r xs)

-- The bytes from `read_ptr` to `end`.
abbrev pub unread : Buffer → List ℕ
unread b = between b.read_ptr b.end b.data_bytes

-- A writer that has not moved both pointers yet.
abbrev pub is_busy : Thread → Bool
is_busy (ending xs) = true
is_busy (rewinding xs) = true
is_busy t = false

-- The copy of a write does not fail.
abbrev pub NoFault : ℕ × Event → Type 0
NoFault (i, fault_in xs) = ⊥
NoFault (i, event) = Unit

-- What a step of a thread does to the queue.
abbrev Effect : Thread → Buffer → Thread → Buffer → Type 0
Effect t b t' b' =
    (q : List ℕ)
    → (is_busy t ≡ false → unread b ≡ q)
    → (q' : List ℕ) × Replays (deed t t') q q' × (is_busy t' ≡ false → unread b' ≡ q')

-- A step that leaves the unread bytes.
same_queue :
    (t : Thread) (b : Buffer) (t' : Thread) (b' : Buffer)
    → is_busy t ≡ false
    → deed t t' ≡ []
    → unread b' ≡ unread b
    → Effect t b t' b'
same_queue t b t' b' h d e q k = (q, rw d refl, λ u. e ∙ k h)

copy_out-Effect :
    (size n : ℕ) (nonblock : Bool) (b : Buffer) (event : Event) (r e : Option ℕ)
    → b.read_ptr ≡ r
    → b.end ≡ e
    → Holding (copy_out size event r e b) (Effect (checking size nonblock) b)
unfolding copy_out
copy_out-Effect size n nonblock b go none e p p' = tt
copy_out-Effect size n nonblock b go (some r) none p p' = tt
copy_out-Effect size n nonblock b go (some r) (some e) p p' = λ q k.
    let k' : take (e - r) (drop r b.data_bytes) ≡ q =
      sym (ap₂ (λ x y. between x y b.data_bytes) p p') ∙ k refl in
    let m = at_most size (e - r) in
    let off : e - (r + m) ≡ e - r - m = omega arith in
    (
      drop size q,
      (copied size (e - r) (drop r b.data_bytes) ∙ ap (take size) k', refl),
      λ u.
          ap (λ y. between (some (r + m)) y b.data_bytes) p'
          ∙ ap₂ take off (drop-drop r m b.data_bytes)
          ∙ remaining size (e - r) (drop r b.data_bytes)
          ∙ ap (drop size) k',
    )
copy_out-Effect size n nonblock b fault_out none e p p' = tt
copy_out-Effect size n nonblock b fault_out (some r) none p p' = tt
copy_out-Effect size n nonblock b fault_out (some r) (some e) p p' =
    same_queue (checking size nonblock) b (leaving (failed fault)) b refl refl refl
copy_out-Effect size n nonblock b signal r e p p' = tt
copy_out-Effect size n nonblock b (read x y) r e p p' = tt
copy_out-Effect size n nonblock b (write xs) r e p p' = tt
copy_out-Effect size n nonblock b (fault_in xs) r e p p' = tt

empty-Effect :
    (size : ℕ) (nonblock : Bool) (b : Buffer)
    → Effect
        (checking size nonblock)
        b
        (if nonblock then returned (failed again) else waiting size nonblock)
        (with_lock none b)
empty-Effect size true b =
    same_queue (checking size true) b (returned (failed again)) (with_lock none b) refl refl refl
empty-Effect size false b =
    same_queue (checking size false) b (waiting size false) (with_lock none b) refl refl refl

check-Effect :
    (size : ℕ) (nonblock : Bool) (event : Event) (b : Buffer)
    → Holding (check size nonblock event b) (Effect (checking size nonblock) b)
unfolding check
check-Effect size nonblock event b = elim (Bool-cases (is_empty b)) [
  | inl e ↦ rw e (empty-Effect size nonblock b)
  | inr e ↦ rw e (copy_out-Effect size 0 nonblock b event b.read_ptr b.end refl refl)
]

fill-Effect :
    (i : ℕ) (xs : List ℕ) (event : Event) (b : Buffer)
    → NoFault (i, event)
    → Holding (fill xs event b) (Effect (filling xs) b)
fill-Effect i xs go b n = λ q k. (q, refl, λ u. cc)
fill-Effect i xs (fault_in left) b n = absurd n
fill-Effect i xs (read x y) b n = tt
fill-Effect i xs (write ys) b n = tt
fill-Effect i xs signal b n = tt
fill-Effect i xs fault_out b n = tt

put_unread :
    (xs : List ℕ) (b : Buffer)
    → b.end ≡ some (length xs)
    → take (length xs) b.data_bytes ≡ xs
    → unread (with_read_ptr 0 b) ≡ xs
put_unread xs b p g =
    let all : length xs - 0 ≡ length xs = omega arith in
    ap (λ y. between (some 0) y b.data_bytes) p ∙ ap (λ k. take k b.data_bytes) all ∙ g

-- A step of the holder of the mutex.
pub thread_step-Effect :
    (limit i : ℕ) (event : Event) (t : Thread) (b : Buffer) (t' : Thread) (b' : Buffer)
    → NoFault (i, event)
    → thread_step limit i event t b ≡ some (t', b')
    → holds t ≡ true
    → Fits limit t b
    → Effect t b t' b'
unfolding thread_step
thread_step-Effect limit i event (checking size m) b t' b' n e a f =
    subst (λ o. Holding o (Effect (checking size m) b)) e (check-Effect size m event b)
thread_step-Effect limit i event (filling xs) b t' b' n e a f =
    subst (λ o. Holding o (Effect (filling xs) b)) e (fill-Effect i xs event b n)
thread_step-Effect limit i event (ending xs) b t' b' n e a f =
    subst (λ o. Holding o (Effect (ending xs) b)) e
      (on_go-Holding event (rewinding xs) (with_end (length xs) b) (Effect (ending xs) b)
        (λ q k. (q, refl, λ u. cc)))
thread_step-Effect limit i event (rewinding xs) b t' b' n e a (p, l, g) =
    subst (λ o. Holding o (Effect (rewinding xs) b)) e
      (on_go-Holding event (waking xs) (with_read_ptr 0 b) (Effect (rewinding xs) b)
        (λ q k. (xs, refl, λ u. put_unread xs b p g)))
thread_step-Effect limit i event (waking xs) b t' b' n e a f =
    subst (λ o. Holding o (Effect (waking xs) b)) e
      (on_go-Holding event (leaving (count (length xs))) b (Effect (waking xs) b)
        (same_queue (waking xs) b (leaving (count (length xs))) b refl refl refl))
thread_step-Effect limit i event (leaving r) b t' b' n e a f =
    subst (λ o. Holding o (Effect (leaving r) b)) e
      (on_go-Holding event (returned r) (with_lock none b) (Effect (leaving r) b)
        (same_queue (leaving r) b (returned r) (with_lock none b) refl refl refl))
thread_step-Effect limit i event idle b t' b' n e a f = cc
thread_step-Effect limit i event (returned r) b t' b' n e a f = cc
thread_step-Effect limit i event (locking size m) b t' b' n e a f = cc
thread_step-Effect limit i event (waiting size m) b t' b' n e a f = cc
thread_step-Effect limit i event (asleep size m) b t' b' n e a f = cc
thread_step-Effect limit i event (entering xs) b t' b' n e a f = cc

-- A thread without the mutex is not busy and does nothing for the users.
pub without_lock : (t t' : Thread) → holds t ≡ false → (is_busy t ≡ false) × (deed t t' ≡ [])
without_lock idle t' h = (refl, refl)
without_lock (returned r) t' h = (refl, refl)
without_lock (locking size m) t' h = (refl, refl)
without_lock (waiting size m) t' h = (refl, refl)
without_lock (asleep size m) t' h = (refl, refl)
without_lock (entering xs) t' h = (refl, refl)
without_lock (checking size m) t' h = cc
without_lock (filling xs) t' h = cc
without_lock (ending xs) t' h = cc
without_lock (rewinding xs) t' h = cc
without_lock (waking xs) t' h = cc
without_lock (leaving r) t' h = cc
