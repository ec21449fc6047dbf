-- ===== src/BlockingQueue/Calls.antt =====
-- What one call of `get` or `put` does, on each branch.
use hodgepodge.Prelude.{
  ◌≤◌, ◌<◌, ◌≡◌, refl, ◌⊎◌, inl, inr, Bool, true, false, List, [], ◌∷◌, ◌++◌, some, arith, length,
  get_elem?, erase_at, All, Bool-cases,
}
use hodgepodge.BlockingQueue.{Queue, found, ended, find_it, can_get, note_size, take_it, get}

module _ {ℓ} {A : Type ℓ} where
  abbrev pub Misses : (A → Bool) → A → Type 0
  Misses filter x = filter x ≡ false

  pub find_it-le : (filter : A → Bool) (xs : List A) → find_it filter xs ≤ length xs
  find_it-le filter [] = omega arith
  find_it-le filter (x ∷ xs) = ground (arith, find_it-le filter xs)

  find_it-first :
      (filter : A → Bool) (before after : List A) (x : A)
      → All (Misses filter) before
      → filter x ≡ true
      → (find_it filter (before ++ x ∷ after) ≡ length before)
        × (get_elem? (before ++ x ∷ after) (find_it filter (before ++ x ∷ after)) ≡ some x)
        × (erase_at (before ++ x ∷ after) (find_it filter (before ++ x ∷ after)) ≡ before ++ after)
        × (find_it filter (before ++ x ∷ after) < length (before ++ x ∷ after))
  find_it-first filter [] after x h p = ground arith
  find_it-first filter (b ∷ before) after x h p =
      ground (arith, find_it-first filter before after x h.1 p)

  find_it-none :
      (filter : A → Bool) (xs : List A) → All (Misses filter) xs → find_it filter xs ≡ length xs
  find_it-none filter [] h = refl
  find_it-none filter (x ∷ xs) h = ground (arith, find_it-none filter xs h.1)

  find_it_cases :
      (filter : A → Bool) (xs : List A)
      → ((x : A) × (get_elem? xs (find_it filter xs) ≡ some x)
          × (filter x ≡ true)
          × (find_it filter xs < length xs))
        ⊎ ((find_it filter xs ≡ length xs) × All (Misses filter) xs)
  find_it_cases filter [] = inr (refl, tt)
  find_it_cases filter (x ∷ xs) = elim (Bool-cases (filter x)) [
    | inl hit ↦ inl (x, ground arith, hit, ground arith)
    | inr miss ↦ elim (find_it_cases filter xs) [
      | inl (y, e, p, lt) ↦ inl (y, ground arith, p, ground arith)
      | inr (e, rest) ↦ inr (ground arith, (miss, rest))
    ]
  ]

  pub note_size-q : (s : Queue A) → (note_size s).q ≡ s.q
  unfolding note_size
  note_size-q s = ground arith

  -- `get` takes the first element that the filter accepts, and leaves the others in their order.
  get-first :
      (filter : A → Bool) (before after : List A) (x : A) (s : Queue A)
      → All (Misses filter) before
      → filter x ≡ true
      → s.q ≡ before ++ x ∷ after
      → ((get filter s).0.q ≡ before ++ after) × ((get filter s).1 ≡ found x)
  unfolding get note_size take_it
  get-first filter before after x s h p e = ground (arith, find_it-first filter before after x h p)

  -- A call of `get` whose wait is over never reads through `end()`: it takes an element that the
  -- filter accepts, or, on a closed queue that holds none, it reports the end and takes nothing.
  pub get_total :
      (filter : A → Bool) (s : Queue A)
      → can_get filter s ≡ true
      → ((x : A) × ((get filter s).1 ≡ found x)
          × (get_elem? s.q (find_it filter s.q) ≡ some x)
          × (filter x ≡ true)
          × ((get filter s).0.q ≡ erase_at s.q (find_it filter s.q)))
        ⊎ (((get filter s).1 ≡ ended)
            × (s.closed ≡ true)
            × All (Misses filter) s.q
            × ((get filter s).0.q ≡ s.q))
  unfolding get can_get note_size take_it
  get_total filter s h = elim (find_it_cases filter s.q) [
    | inl (x, e, p, lt) ↦ inl (x, ground arith, e, p, ground (arith, note_size-q s))
    | inr (e, rest) ↦ inr (ground arith, ground arith, rest, ground (arith, note_size-q s))
  ]
