-- ===== src/Reverse/Lock.antt =====
-- The mutex of the device and the state of its buffer: what each step of a thread needs and leaves.
use hodgepodge.Prelude.{ℕ, ◌≤◌, ◌≡◌, Bool, true, false, Option, none, some, take, length}
use hodgepodge.Reverse.{
  Buffer, Thread, checking, entering, filling, ending, rewinding, waking, leaving, Event, read,
  write, go, signal, fault_out, fault_in, with_lock, on_go,
}

abbrev pub holds : Thread → Bool
holds (checking size nonblock) = true
holds (filling xs) = true
holds (ending xs) = true
holds (rewinding xs) = true
holds (waking xs) = true
holds (leaving r) = true
holds t = false

-- Both pointers are NULL, or the unread bytes lie inside the buffer.
abbrev pub Pointers : ℕ → Option ℕ → Option ℕ → Type 0
Pointers limit none none = Unit
Pointers limit none (some e) = ⊥
Pointers limit (some r) none = ⊥
Pointers limit (some r) (some e) = (r ≤ e) × (e ≤ limit)

abbrev pub Settled : ℕ → Buffer → Type 0
Settled limit b = Pointers limit b.read_ptr b.end

-- What a thread relies on where it is.
abbrev pub Fits : ℕ → Thread → Buffer → Type 0
Fits limit (checking size nonblock) b = Settled limit b
Fits limit (leaving r) b = Settled limit b
Fits limit (entering xs) b = length xs ≤ limit
Fits limit (filling xs) b = Settled limit b × (length xs ≤ limit)
Fits limit (ending xs) b =
    Settled limit b × (length xs ≤ limit) × (take (length xs) b.data_bytes ≡ xs)
Fits limit (rewinding xs) b =
    (b.end ≡ some (length xs)) × (length xs ≤ limit) × (take (length xs) b.data_bytes ≡ xs)
Fits limit (waking xs) b =
    (b.read_ptr ≡ some 0)
    × (b.end ≡ some (length xs))
    × (length xs ≤ limit)
    × (take (length xs) b.data_bytes ≡ xs)
Fits limit t b = Unit

-- What a step does with the mutex.
pub data Move (i : ℕ) (t : Thread) (b : Buffer) (t' : Thread) (b' : Buffer) : Type 0 where
  quiet : holds t ≡ false → holds t' ≡ false → b' ≡ b → Move i t b t' b'
  takes :
      holds t ≡ false
      → holds t' ≡ true
      → b.lock ≡ none
      → b' ≡ with_lock (some i) b
      → Move i t b t' b'
  works : holds t ≡ true → holds t' ≡ true → b'.lock ≡ b.lock → Move i t b t' b'
  frees : holds t ≡ true → holds t' ≡ false → b' ≡ with_lock none b → Move i t b t' b'

pub record After (limit i : ℕ) (t : Thread) (b : Buffer) (t' : Thread) (b' : Buffer) : Type 0 where
  pub move : Move i t b t' b'
  pub fits : Fits limit t' b'
  pub size_kept : length b'.data_bytes ≡ length b.data_bytes
  pub settled : holds t ≡ true → holds t' ≡ false → Settled limit b'

-- The result, if there is one, has the property.
abbrev pub Holding : Option (Thread × Buffer) → (Thread → Buffer → Type 0) → Type 0
Holding none P = Unit
Holding (some (t, b)) P = P t b

pub on_go-Holding :
    (event : Event) (t : Thread) (b : Buffer) (P : Thread → Buffer → Type 0)
    → P t b
    → Holding (on_go event (t, b)) P
on_go-Holding (read size nonblock) t b P p = tt
on_go-Holding (write xs) t b P p = tt
on_go-Holding go t b P p = p
on_go-Holding signal t b P p = tt
on_go-Holding fault_out t b P p = tt
on_go-Holding (fault_in xs) t b P p = tt
