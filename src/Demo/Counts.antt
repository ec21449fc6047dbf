-- ===== src/Demo/Counts.antt =====
-- What the readers count, and where the threads can stand.
use hodgepodge.Prelude.{
  ℕ, zero, suc, ◌+◌, ◌≡◌, refl, sym, ◌∙◌, Bool, true, List, [], ◌∷◌, map, some, get_elem?, set,
  arith, All, All-imp, length, sum_by,
}
use hodgepodge.BlockingQueue.{Queue, Outcome, found, ended, past_end, get, note_size, take_it}
use hodgepodge.BlockingQueue.Calls.{note_size-q}
use hodgepodge.BlockingQueue.Order.{TakesAny}
use hodgepodge.BlockingQueue.Threads.{
  Pc, idle, getting, waiting_get, putting, waiting_put, outgoing, wake_getter, wake_putter,
}
use hodgepodge.Demo.{Reader, note, note_at}

module _ {A : Type 0} where
  pub get-closed : (f : A → Bool) (s : Queue A) → (get f s).0.closed ≡ s.closed
  unfolding get take_it note_size
  get-closed f s = ground arith

  -- Such a reader returns only when the queue is closed and empty.
  pub get-ended :
      (f : A → Bool) (s : Queue A)
      → TakesAny f
      → (get f s).1 ≡ ended
      → (s.closed ≡ true) × (s.q ≡ [])
  unfolding get take_it
  get-ended f s any e = at_end s.q refl
    where
      at_end : (xs : List A) → s.q ≡ xs → (s.closed ≡ true) × (s.q ≡ [])
      at_end [] q = ground (arith, note_size-q s, e)
      at_end (x ∷ xs) q = absurd (ground (arith, note_size-q s, any x, e))

  pub get-empty : (f : A → Bool) (s : Queue A) → s.q ≡ [] → (get f s).0.q ≡ []
  unfolding get take_it
  get-empty f s e = ground (arith, note_size-q s, e)

  -- The elements that main has called `put` with and that are not in the queue yet.
  abbrev pub on_way : Pc A → ℕ
  on_way (putting b x) = 1
  on_way (waiting_put x) = 1
  on_way p = 0

  -- Where the thread that fills the queue can stand.
  abbrev pub IsMain : Pc A → Type 0
  IsMain idle = Unit
  IsMain (putting b x) = b ≡ true
  IsMain (waiting_put x) = Unit
  IsMain p = ⊥

  -- Where a reader can stand.
  abbrev pub Fits : Pc A → Reader A → Type 0
  Fits idle r = Unit
  Fits (getting f) r = f ≡ r.filter
  Fits (waiting_get f) r = f ≡ r.filter
  Fits p r = ⊥

  abbrev pub Linked : List (Pc A) → List (Reader A) → Type 0
  Linked [] [] = Unit
  Linked (p ∷ ps) (r ∷ rs) = Fits p r × Linked ps rs
  Linked [] (r ∷ rs) = ⊥
  Linked (p ∷ ps) [] = ⊥

  Fits-wake_getter : (p : Pc A) (r : Reader A) → Fits p r → Fits (wake_getter p) r
  Fits-wake_getter idle r h = tt
  Fits-wake_getter (getting f) r h = h
  Fits-wake_getter (waiting_get f) r h = h
  Fits-wake_getter (putting b x) r h = absurd h
  Fits-wake_getter (waiting_put x) r h = absurd h

  Fits-wake_putter : (p : Pc A) (r : Reader A) → Fits p r → Fits (wake_putter p) r
  Fits-wake_putter idle r h = tt
  Fits-wake_putter (getting f) r h = h
  Fits-wake_putter (waiting_get f) r h = h
  Fits-wake_putter (putting b x) r h = absurd h
  Fits-wake_putter (waiting_put x) r h = absurd h

  Linked-map :
      (w : Pc A → Pc A) (ps : List (Pc A)) (rs : List (Reader A))
      → ((p : Pc A) (r : Reader A) → Fits p r → Fits (w p) r)
      → Linked ps rs
      → Linked (map w ps) rs
  Linked-map w [] [] k h = tt
  Linked-map w [] (r ∷ rs) k h = absurd h
  Linked-map w (p ∷ ps) [] k h = absurd h
  Linked-map w (p ∷ ps) (r ∷ rs) k h = (k p r h.0, Linked-map w ps rs k h.1)

  pub Linked-wake_getter :
      (ps : List (Pc A)) (rs : List (Reader A)) → Linked ps rs → Linked (map wake_getter ps) rs
  Linked-wake_getter ps rs h = Linked-map wake_getter ps rs Fits-wake_getter h

  pub Linked-wake_putter :
      (ps : List (Pc A)) (rs : List (Reader A)) → Linked ps rs → Linked (map wake_putter ps) rs
  Linked-wake_putter ps rs h = Linked-map wake_putter ps rs Fits-wake_putter h

  -- One reader moves.
  pub Linked-set :
      (ps : List (Pc A)) (rs : List (Reader A)) (j : ℕ) (r : Reader A) (p : Pc A)
      → get_elem? rs j ≡ some r
      → Fits p r
      → Linked ps rs
      → Linked (set ps j p) rs
  Linked-set [] rs j r p e f h = h
  Linked-set (q ∷ ps) [] j r p e f h = absurd h
  Linked-set (q ∷ ps) (s ∷ rs) zero r p e f h = (ground (arith, f), h.1)
  Linked-set (q ∷ ps) (s ∷ rs) (suc j) r p e f h = (h.0, Linked-set ps rs j r p e f h.1)

  -- The reader of a thread.
  pub Linked-get_elem? :
      (ps : List (Pc A)) (rs : List (Reader A)) (j : ℕ) (p : Pc A)
      → get_elem? ps j ≡ some p
      → Linked ps rs
      → (r : Reader A) × (get_elem? rs j ≡ some r) × Fits p r
  Linked-get_elem? [] rs j p e h = cc
  Linked-get_elem? (q ∷ ps) [] j p e h = absurd h
  Linked-get_elem? (q ∷ ps) (s ∷ rs) zero p e h = (s, refl, ground (arith, e, h))
  Linked-get_elem? (q ∷ ps) (s ∷ rs) (suc j) p e h = Linked-get_elem? ps rs j p e h.1

  note-filter : (out : Outcome A) (r : Reader A) → (note out r).filter ≡ r.filter
  note-filter (found x) r = refl
  note-filter ended r = refl
  note-filter past_end r = refl

  Fits-note : (p : Pc A) (out : Outcome A) (r : Reader A) → Fits p r → Fits p (note out r)
  Fits-note idle out r h = tt
  Fits-note (getting f) out r h = h ∙ sym (note-filter out r)
  Fits-note (waiting_get f) out r h = h ∙ sym (note-filter out r)
  Fits-note (putting b x) out r h = absurd h
  Fits-note (waiting_put x) out r h = absurd h

  pub Linked-note_at :
      (ps : List (Pc A)) (rs : List (Reader A)) (j : ℕ) (out : Outcome A)
      → Linked ps rs
      → Linked ps (note_at j out rs)
  Linked-note_at [] [] j out h = tt
  Linked-note_at [] (r ∷ rs) j out h = absurd h
  Linked-note_at (p ∷ ps) [] j out h = absurd h
  Linked-note_at (p ∷ ps) (r ∷ rs) zero out h = (Fits-note p out r h.0, h.1)
  Linked-note_at (p ∷ ps) (r ∷ rs) (suc j) out h = (h.0, Linked-note_at ps rs j out h.1)

  -- A reader counts what it is given.
  pub note_at-count :
      (rs : List (Reader A)) (j : ℕ) (r : Reader A) (out : Outcome A)
      → get_elem? rs j ≡ some r
      → sum_by (λ s. s.count) (note_at j out rs) ≡ sum_by (λ s. s.count) rs + length (outgoing out)
  note_at-count [] j r out e = cc
  note_at-count (s ∷ rs) zero r (found x) e = omega arith
  note_at-count (s ∷ rs) zero r ended e = omega arith
  note_at-count (s ∷ rs) zero r past_end e = omega arith
  note_at-count (s ∷ rs) (suc j) r out e = omega (arith, note_at-count rs j r out e)

  -- A reader that takes anything and has returned.
  abbrev pub Done : Queue A → Reader A → Type 0
  Done s r = r.returned ≡ true → TakesAny r.filter → (s.closed ≡ true) × (s.q ≡ [])

  -- A reader that notes a result leaves its loop only at the end.
  pub Done-note_at :
      (s s' : Queue A) (rs : List (Reader A)) (j : ℕ) (r : Reader A) (out : Outcome A)
      → get_elem? rs j ≡ some r
      → (out ≡ ended → TakesAny r.filter → (s'.closed ≡ true) × (s'.q ≡ []))
      → ((t : Reader A) → Done s t → Done s' t)
      → All (Done s) rs
      → All (Done s') (note_at j out rs)
  Done-note_at s s' [] j r out e now keep h = cc
  Done-note_at s s' (t ∷ rs) zero r out e now keep h = (
    noted out (λ o any. now o (λ x. ground (arith, e, any x))),
    All-imp (Done s) (Done s') keep rs h.1,
  )
    where
      noted :
          (o : Outcome A)
          → (o ≡ ended → TakesAny t.filter → (s'.closed ≡ true) × (s'.q ≡ []))
          → Done s' (note o t)
      noted (found x) n = keep t h.0
      noted ended n = λ over any. n refl any
      noted past_end n = keep t h.0
  Done-note_at s s' (t ∷ rs) (suc j) r out e now keep h =
      (keep t h.0, Done-note_at s s' rs j r out e now keep h.1)
