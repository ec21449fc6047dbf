-- ===== src/ThreadPool/Counts.antt =====
-- How many threads of the pool stand where, and how the notifications change that.
use hodgepodge.Prelude.{
  ℕ, ◌+◌, ◌≡◌, refl, ◌⊎◌, inl, inr, List, [], ◌∷◌, map, Option, some, arith, get_elem?, set, sum_by,
  sum_by-set,
}
use hodgepodge.ThreadPool.{
  client, inside, Pc, ready, asleep, exited, blocked, notifying, stopping, lives, wake_worker,
  wake_enqueuer, wake_first, wake_at, wake_one,
}

module _ {ℓ} {A : Type ℓ} where
  abbrev pub sleeps : Pc A → ℕ
  sleeps asleep = 1
  sleeps p = 0

  abbrev pub is_ready : Pc A → ℕ
  is_ready ready = 1
  is_ready p = 0

  abbrev pub notifies : Pc A → ℕ
  notifies (notifying who) = 1
  notifies p = 0

  abbrev pub stops : Pc A → ℕ
  stops stopping = 1
  stops p = 0

  abbrev pub exits : Pc A → ℕ
  exits exited = 1
  exits p = 0

  -- The change of the counts when one thread goes from `old` to `new`.
  pub record Moved (xs ys : List (Pc A)) (old new : Pc A) : Type 0 where
    pub asleep_now : sum_by sleeps ys + sleeps old ≡ sum_by sleeps xs + sleeps new
    pub ready_now : sum_by is_ready ys + is_ready old ≡ sum_by is_ready xs + is_ready new
    pub notifying_now : sum_by notifies ys + notifies old ≡ sum_by notifies xs + notifies new
    pub stopping_now : sum_by stops ys + stops old ≡ sum_by stops xs + stops new
    pub exited_now : sum_by exits ys + exits old ≡ sum_by exits xs + exits new
    pub live_now : sum_by lives ys + lives old ≡ sum_by lives xs + lives new

  pub set-Moved :
      (xs : List (Pc A)) (i : ℕ) (old new : Pc A)
      → get_elem? xs i ≡ some old
      → Moved xs (set xs i new) old new
  set-Moved xs i old new e = record {
    asleep_now = sum_by-set sleeps xs i old new e;
    ready_now = sum_by-set is_ready xs i old new e;
    notifying_now = sum_by-set notifies xs i old new e;
    stopping_now = sum_by-set stops xs i old new e;
    exited_now = sum_by-set exits xs i old new e;
    live_now = sum_by-set lives xs i old new e;
  }

  -- `condition_notfull.notify_all()` changes none of the counts.
  pub wake_enqueuer-Moved : (xs : List (Pc A)) → Moved xs (map wake_enqueuer xs) ready ready
  wake_enqueuer-Moved [] = omega arith
  wake_enqueuer-Moved (ready ∷ xs) = omega (arith, wake_enqueuer-Moved xs)
  wake_enqueuer-Moved (blocked client t ∷ xs) = omega (arith, wake_enqueuer-Moved xs)
  wake_enqueuer-Moved (blocked (inside s) t ∷ xs) = omega (arith, wake_enqueuer-Moved xs)
  wake_enqueuer-Moved (p ∷ xs) = omega (arith, wake_enqueuer-Moved xs)

  -- `condition.notify_all()` leaves no worker asleep.
  pub record Roused (xs ys : List (Pc A)) : Type 0 where
    pub none_asleep : sum_by sleeps ys ≡ 0
    pub all_ready : sum_by is_ready ys ≡ sum_by is_ready xs + sum_by sleeps xs
    pub same_exited : sum_by exits ys ≡ sum_by exits xs
    pub same_live : sum_by lives ys ≡ sum_by lives xs

  pub wake_worker-Roused : (xs : List (Pc A)) → Roused xs (map wake_worker xs)
  wake_worker-Roused [] = omega arith
  wake_worker-Roused (asleep ∷ xs) = omega (arith, wake_worker-Roused xs)
  wake_worker-Roused (p ∷ xs) = omega (arith, wake_worker-Roused xs)

  -- `condition.notify_one()` wakes a worker, unless none sleeps.
  wake_first-Moved :
      (xs : List (Pc A))
      → ((sum_by sleeps xs ≡ 0) × (wake_first xs ≡ xs)) ⊎ Moved xs (wake_first xs) asleep ready
  wake_first-Moved [] = inl (refl, refl)
  wake_first-Moved (asleep ∷ xs) = inr (omega arith)
  wake_first-Moved (p ∷ xs) = elim (wake_first-Moved xs) [
    | inl (e, f) ↦ inl (omega (arith, e), cc)
    | inr m ↦ inr (omega (arith, m))
  ]

  wake_at-Moved :
      (xs : List (Pc A)) (j : ℕ) (o : Option (Pc A))
      → get_elem? xs j ≡ o
      → ((sum_by sleeps xs ≡ 0) × (wake_at xs j o ≡ xs)) ⊎ Moved xs (wake_at xs j o) asleep ready
  wake_at-Moved xs j (some asleep) e = inr (set-Moved xs j asleep ready e)
  wake_at-Moved xs j p e = wake_first-Moved xs

  pub wake_one-Moved :
      (xs : List (Pc A)) (j : ℕ)
      → ((sum_by sleeps xs ≡ 0) × (wake_one xs j ≡ xs)) ⊎ Moved xs (wake_one xs j) asleep ready
  wake_one-Moved xs j = wake_at-Moved xs j (get_elem? xs j) refl
