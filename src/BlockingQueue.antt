-- ===== src/BlockingQueue.antt =====
-- thread_queue.h: the state of `blocking_queue<T>`, and what each member does between the two
-- times that it holds the mutex without waiting.
pub mod Calls
pub mod Threads
pub mod Wakeup
pub mod History
pub mod Order
pub mod Progress
use hodgepodge.Prelude.{
  ℕ, suc, Bool, true, false, not, ◌&&◌, List, [], ◌∷◌, ◌++◌, Option, none, some, ltb, leb, ◌==◌,
  if◌then◌else◌, length, get_elem?, erase_at, ℤ, pos, size_of_int, int_of_size,
}

pub record Queue {ℓ} (A : Type ℓ) : Type ℓ where
  pub size_limit : ℤ
  pub q : List A
  pub max_size : ℤ
  pub closed : Bool

-- How a call of `get` ends: with an element, with false, or by reading through `end()`.
pub data Outcome {ℓ} (A : Type ℓ) : Type ℓ where
  found : A → Outcome A
  ended : Outcome A
  past_end : Outcome A

module _ {ℓ} {A : Type ℓ} where
  unfoldable pub init : ℤ → Queue A
  init sz = record { size_limit = sz; q = []; max_size = pos 0; closed = false }

  -- The iterator that the wait's loop leaves, as an index: the length stands for `end()`.
  abbrev pub find_it : (A → Bool) → List A → ℕ
  find_it filter [] = 0
  find_it filter (x ∷ xs) = if filter x then 0 else suc (find_it filter xs)

  -- The predicate that `get` waits for.
  unfoldable pub can_get : (A → Bool) → Queue A → Bool
  can_get filter s = if ltb (find_it filter s.q) (length s.q) then true else s.closed

  unfoldable pub note_size : Queue A → Queue A
  note_size s =
      if ltb (size_of_int s.max_size) (length s.q)
      then record s { max_size = int_of_size (length s.q) }
      else s

  -- The third part says whether `_cv_notfull` is notified.
  unfoldable pub take_it : ℕ → Queue A → Queue A × Outcome A × Bool
  take_it it s = elim (get_elem? s.q it) [
    | none ↦ (s, past_end, false)
    | some x ↦
        let rest = erase_at s.q it in
        (record s { q = rest }, found x, ltb (length rest) (size_of_int s.size_limit))
  ]

  -- `get` from where its wait is over.
  unfoldable pub get : (A → Bool) → Queue A → Queue A × Outcome A × Bool
  get filter s =
      let it = find_it filter s.q in
      if (it == length s.q) && s.closed
      then (note_size s, ended, false)
      else take_it it (note_size s)

  -- The predicate that `put` waits for.
  unfoldable pub can_put : Queue A → Bool
  can_put s = ltb (length s.q) (size_of_int s.size_limit)

  -- The early return of `put`: a call that must not block, on a full queue.
  unfoldable pub refuses : Bool → Queue A → Bool
  refuses blocking s = not blocking && leb (size_of_int s.size_limit) (length s.q)

  -- `put` from where its wait is over. It always notifies `_cv`, and so does `close`.
  unfoldable pub put : A → Queue A → Queue A
  put obj s = record s { q = s.q ++ obj ∷ [] }

  unfoldable pub close : Queue A → Queue A
  close s = record s { closed = true }

  unfoldable pub size : Queue A → ℤ
  size s = int_of_size (length s.q)
