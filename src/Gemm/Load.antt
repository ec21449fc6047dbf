-- ===== src/Gemm/Load.antt =====
-- The tiles of `myGEMM2`: what the loads of a work-group leave in its local memory, and what the products
-- of a tile add.
use hodgepodge.Prelude.{
  bind_some, ◌>>=◌, ℕ, zero, suc, ◌+◌, ◌*◌, ◌<◌, ◌≡◌, refl, sym, ap, ◌∙◌, List, [], ◌∷◌, Option,
  some, length, get_elem?, map, arith, All,
}
use hodgepodge.Gemm.{for_each, store, Floats, ts, global, each, load_item, compute_item, tiles}
use hodgepodge.Gemm.Grid.{
  Item, InGrid, Right, Stores, store-Stored, for_each-Stored, Covers, All-OneOf,
}
use hodgepodge.Gemm.Plain.{
  sum_from, sum_from-append, sum_from-shift, dot_lem, at, product, get_elem?-a, get_elem?-b,
}

-- Two loops over the same list, each with its own state.
for_each-both :
    {X S T : Type 0} (xs : List X) (body : X → S × T → Option (S × T)) (f : X → S → Option S)
    (g : X → T → Option T)
    → ((x : X) (s : S) (t : T) → body x (s, t) ≡ (f x s >>= λ s'. g x t >>= λ t'. some (s', t')))
    → (s s' : S) (t t' : T) → for_each xs f s ≡ some s'
    → for_each xs g t ≡ some t'
    → for_each xs body (s, t) ≡ some (s', t')
unfolding for_each
for_each-both [] body f g h s s' t t' e e' = cc
for_each-both (x ∷ xs) body f g h s s' t t' e e' =
    let (s1, p, q) = bind_some (f x s) (for_each xs f) s' e in
    let (t1, p', q') = bind_some (g x t) (for_each xs g) t' e' in
    rw (h x s t, p, p', ◌>>=◌) (for_each-both xs body f g h s1 s' t1 t' q q')

each-map :
    {X Y : Type 0} (f : X → Y → Option Y) (y y' : X → Y) (P : X → Type 0) (xs : List X)
    → All P xs
    → ((x : X) → P x → f x (y x) ≡ some (y' x))
    → each f (map (λ x. (x, y x)) xs) ≡ some (map (λ x. (x, y' x)) xs)
each-map f y y' P [] ps h = refl
each-map f y y' P (x ∷ xs) (p, ps) h = rw (h x p, each-map f y y' P xs ps h, ◌>>=◌) refl

module _ {A : Type 0} ⦃float : Floats A⦄ (a b : List A) (m k n rows count columns : ℕ)
    (m_size : m ≡ ts * rows) (k_size : k ≡ ts * count) (n_size : n ≡ ts * columns)
    (a_length : length a ≡ m * k) (b_length : length b ≡ k * n) (group : Item)
    (inside : InGrid rows columns group) where
  -- What the local memory holds of the t-th tiles.
  abbrev loaded_a : ℕ → Item → A
  loaded_a t (row, column) = at a ((ts * t + column) * m + (ts * group.0 + row))

  abbrev loaded_b : ℕ → Item → A
  loaded_b t (row, column) = at b ((ts * group.1 + column) * k + (ts * t + row))

  abbrev load_a : ℕ → Item → List A → Option (List A)
  load_a t (row, column) asub =
      get_elem? a ((ts * t + column) * m + (ts * group.0 + row)) >>= store asub (column * ts + row)

  abbrev load_b : ℕ → Item → List A → Option (List A)
  load_b t (row, column) bsub =
      get_elem? b ((ts * group.1 + column) * k + (ts * t + row)) >>= store bsub (column * ts + row)

  load_a-Stores : (t : ℕ) → t < count → Stores ts ts (loaded_a t) (load_a t)
  load_a-Stores t h row column c (p, q) l =
      rw
        (
          get_elem?-a a b m k n a_length b_length (ts * t + column) (ts * group.0 + row)
              (omega arith) (omega (arith, inside.0)),
          ◌>>=◌,
        )
        (store-Stored ts ts (loaded_a t) c row column (p, q) l)

  load_b-Stores : (t : ℕ) → t < count → Stores ts ts (loaded_b t) (load_b t)
  load_b-Stores t h row column c (p, q) l =
      rw
        (
          get_elem?-b a b m k n a_length b_length (ts * group.1 + column) (ts * t + row)
              (omega (arith, inside.1)) (omega arith),
          ◌>>=◌,
        )
        (store-Stored ts ts (loaded_b t) c row column (p, q) l)

  -- After the loads of a tile the local memory is right in every cell.
  Loaded : ℕ → List A × List A → Type 0
  Loaded t (asub, bsub) =
      (length asub ≡ ts * ts)
      × (length bsub ≡ ts * ts)
      × ((row column : ℕ)
          → InGrid ts ts (row, column)
          → Right ts ts (loaded_a t) asub (row, column))
      × ((row column : ℕ)
          → InGrid ts ts (row, column)
          → Right ts ts (loaded_b t) bsub (row, column))

  load_lem :
      (items : List Item) (t : ℕ) (asub bsub : List A)
      → All (InGrid ts ts) items
      → Covers ts ts items
      → t < count
      → length asub ≡ ts * ts
      → length bsub ≡ ts * ts
      → (local : List A × List A) × (for_each items (load_item a b m k group t) (asub, bsub)
          ≡ some local)
        × Loaded t local
  unfolding load_item Loaded
  load_lem items t asub bsub fit covers h l l' =
      let (asub', e, s) =
        for_each-Stored ts ts (loaded_a t) (load_a t) items asub (load_a-Stores t h) fit l in
      let (bsub', e', s') =
        for_each-Stored ts ts (loaded_b t) (load_b t) items bsub (load_b-Stores t h) fit l' in
      (
        (asub', bsub'),
        for_each-both items (load_item a b m k group t) (load_a t) (load_b t) (λ item s t. refl)
            asub asub' bsub bsub' e e',
        (
          s.same_length,
          s'.same_length,
          λ row column p.
              All-OneOf (Right ts ts (loaded_a t) asub') (row, column) items s.right
                (covers row column p),
          λ row column p.
              All-OneOf (Right ts ts (loaded_b t) bsub') (row, column) items s'.right
                (covers row column p),
        ),
      )

  -- The sum after the first t tiles.
  abbrev pub partial_sum : ℕ → Item → A
  partial_sum t item = sum_from float.zero_float (ts * t) 0 (product a b m k (global group item))

  partial_sum-step :
      (t : ℕ) (item : Item)
      → sum_from (partial_sum t item) ts 0 (λ i. product a b m k (global group item) (ts * t + i))
        ≡ partial_sum (suc t) item
  partial_sum-step t item =
      let f = product a b m k (global group item) in
      let p : ts * t + 0 ≡ 0 + ts * t = omega arith in
      let q : ts * t + ts ≡ ts * suc t = omega arith in
      sum_from-shift (partial_sum t item) ts 0 (ts * t) f
      ∙ ap (λ i. sum_from (partial_sum t item) ts i f) p
      ∙ sym (sum_from-append float.zero_float (ts * t) ts 0 f)
      ∙ ap (λ i. sum_from float.zero_float i 0 f) q

  compute_item_lem :
      (t : ℕ) (local : List A × List A) (item : Item)
      → Loaded t local
      → InGrid ts ts item
      → compute_item local item (partial_sum t item) ≡ some (partial_sum (suc t) item)
  unfolding compute_item Loaded
  compute_item_lem t (asub, bsub) (row, column) (l, l', r, r') (p, q) =
      dot_lem asub bsub ts ts row column ts 0 (partial_sum t (row, column))
        (λ i. loaded_a t (row, i)) (λ i. loaded_b t (i, column)) (λ i u v. r row i (p, omega arith))
        (λ i u v. r' i column (omega arith, q))
      ∙ ap some (partial_sum-step t (row, column))

  -- The private variables after the first t tiles.
  abbrev pub partial_sums : List Item → ℕ → List (Item × A)
  partial_sums items t = map (λ item. (item, partial_sum t item)) items

  pub tiles_lem :
      (items : List Item) (left t : ℕ) (local : List A × List A)
      → All (InGrid ts ts) items
      → Covers ts ts items
      → left + t ≡ count
      → length local.0 ≡ ts * ts
      → length local.1 ≡ ts * ts
      → tiles a b m k group items left t local (partial_sums items t)
        ≡ some (partial_sums items count)
  unfolding tiles Loaded
  tiles_lem items zero t local fit covers e l l' =
      let p : t ≡ count = omega (arith, e) in ap (λ i. some (partial_sums items i)) p
  tiles_lem items (suc left) t local fit covers e l l' =
      let (local', loads, good) = load_lem items t local.0 local.1 fit covers (omega arith) l l' in
      let computes =
        each-map (compute_item local') (partial_sum t) (partial_sum (suc t)) (InGrid ts ts) items
          fit (λ item p. compute_item_lem t local' item good p) in
      rw (loads, ◌>>=◌, computes, ◌>>=◌)
        (tiles_lem items left (suc t) local' fit covers (omega arith) good.0 good.1)
