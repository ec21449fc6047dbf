-- ===== src/Gemm/Plain.antt =====
-- The product of topencl.cpp, `matmult`, and the kernels without tiles, `myGEMM1` and `myGEMM1b`.
use hodgepodge.Prelude.{
  ◌>>=◌, ℕ, zero, suc, ◌+◌, ◌*◌, ◌<◌, ◌≤◌, ◌≡◌, refl, ap, ap₂, ◌∙◌, List, [], ◌∷◌, some, length,
  get_elem?, arith, All, range_from,
}
use hodgepodge.Gemm.{for_each, store, Floats, dot, cell_into, matmult, gemm1}
use hodgepodge.Gemm.Order.{items_of, for_each-nested, loops-InGrid, loops-Covers}
use hodgepodge.Gemm.Grid.{
  Item, InGrid, Right, Stores, store-Stored, for_each-Stored, Covers, Right-unique, All-OneOf,
  index_in_range,
}

module _ {A : Type 0} ⦃float : Floats A⦄ where
  -- The sum of `left` values from the k-th on, in their order, added to `acc`.
  abbrev pub sum_from : A → ℕ → ℕ → (ℕ → A) → A
  sum_from acc zero k f = acc
  sum_from acc (suc left) k f = sum_from (float.add acc (f k)) left (suc k) f

  pub sum_from-append :
      (acc : A) (left more k : ℕ) (f : ℕ → A)
      → sum_from acc (left + more) k f ≡ sum_from (sum_from acc left k f) more (k + left) f
  sum_from-append acc zero more k f =
      let p : 0 + more ≡ more = omega arith in
      let q : k ≡ k + 0 = omega arith in ap₂ (λ l n. sum_from acc l n f) p q
  sum_from-append acc (suc left) more k f =
      let p : suc left + more ≡ suc (left + more) = omega arith in
      let q : suc k + left ≡ k + suc left = omega arith in
      ap (λ l. sum_from acc l k f) p
      ∙ sum_from-append (float.add acc (f k)) left more (suc k) f
      ∙ ap (λ n. sum_from (sum_from (float.add acc (f k)) left (suc k) f) more n f) q

  pub sum_from-shift :
      (acc : A) (left k shift : ℕ) (f : ℕ → A)
      → sum_from acc left k (λ i. f (shift + i)) ≡ sum_from acc left (shift + k) f
  sum_from-shift acc zero k shift f = refl
  sum_from-shift acc (suc left) k shift f =
      let q : shift + suc k ≡ suc (shift + k) = omega arith in
      sum_from-shift (float.add acc (f (shift + k))) left (suc k) shift f
      ∙ ap (λ n. sum_from (float.add acc (f (shift + k))) left n f) q

  -- Where every read has a value, the loop sums the products.
  pub dot_lem :
      (a b : List A) (height depth row column left k : ℕ) (acc : A) (x y : ℕ → A)
      → ((i : ℕ) → k ≤ i → i < k + left → get_elem? a (i * height + row) ≡ some (x i))
      → ((i : ℕ) → k ≤ i → i < k + left → get_elem? b (column * depth + i) ≡ some (y i))
      → dot a b height depth row column left k acc
        ≡ some (sum_from acc left k (λ i. float.mul (x i) (y i)))
  unfolding dot
  dot_lem a b height depth row column zero k acc x y h h' = refl
  dot_lem a b height depth row column (suc left) k acc x y h h' =
      rw (h k (omega arith) (omega arith), h' k (omega arith) (omega arith), ◌>>=◌)
        (dot_lem a b height depth row column left (suc k) (float.add acc (float.mul (x k) (y k))) x
          y (λ i p q. h i (omega arith) (omega arith)) (λ i p q. h' i (omega arith) (omega arith)))

  -- The value in a cell.
  abbrev pub at : List A → ℕ → A
  at [] i = float.zero_float
  at (x ∷ xs) zero = x
  at (x ∷ xs) (suc i) = at xs i

  pub get_elem?-at : (xs : List A) (i : ℕ) → i < length xs → get_elem? xs i ≡ some (at xs i)
  get_elem?-at [] i h = absurd (omega arith)
  get_elem?-at (x ∷ xs) zero h = refl
  get_elem?-at (x ∷ xs) (suc i) h = get_elem?-at xs i (omega arith)

  -- The k-th product of a cell of the result, and the cell.
  abbrev pub product : List A → List A → ℕ → ℕ → Item → ℕ → A
  product a b m k (row, column) i = float.mul (at a (i * m + row)) (at b (column * k + i))

  abbrev pub cell : List A → List A → ℕ → ℕ → Item → A
  cell a b m k item = sum_from float.zero_float k 0 (product a b m k item)

  module _ (a b : List A) (m k n : ℕ) (a_length : length a ≡ m * k)
      (b_length : length b ≡ k * n) where
    pub get_elem?-a :
        (i row : ℕ) → i < k → row < m → get_elem? a (i * m + row) ≡ some (at a (i * m + row))
    get_elem?-a i row h h' =
        get_elem?-at a (i * m + row) (omega (arith, a_length, index_in_range m k row i h' h))

    pub get_elem?-b :
        (column i : ℕ)
        → column < n
        → i < k
        → get_elem? b (column * k + i) ≡ some (at b (column * k + i))
    get_elem?-b column i h h' =
        get_elem?-at b (column * k + i) (omega (arith, b_length, index_in_range k n i column h' h))

    pub cell_into_lem :
        (row column : ℕ) (c : List A)
        → row < m
        → column < n
        → cell_into a b m k row column c ≡ store c (column * m + row) (cell a b m k (row, column))
    unfolding cell_into
    cell_into_lem row column c h h' =
        rw
          (
            dot_lem a b m k row column k 0 float.zero_float (λ i. at a (i * m + row))
                (λ i. at b (column * k + i)) (λ i p q. get_elem?-a i row (omega arith) h)
                (λ i p q. get_elem?-b column i h' (omega arith)),
            ◌>>=◌,
          )
          refl

    pub cell_into-Stores : Stores m n (cell a b m k) (λ item. cell_into a b m k item.0 item.1)
    cell_into-Stores row column c (h, h') l =
        rw (cell_into_lem row column c h h')
          (store-Stored m n (cell a b m k) c row column (h, h') l)

    -- A schedule of every cell fills in the same matrix as any other.
    pub covering_lem :
        (items : List Item) (c : List A)
        → length c ≡ m * n
        → All (InGrid m n) items
        → Covers m n items
        → (c' : List A) × (for_each items (λ item. cell_into a b m k item.0 item.1) c ≡ some c')
          × (length c' ≡ m * n)
          × ((row column : ℕ)
              → InGrid m n (row, column)
              → Right m n (cell a b m k) c' (row, column))
    covering_lem items c l inside covers =
        let (c', e, s) =
          for_each-Stored m n (cell a b m k) (λ item. cell_into a b m k item.0 item.1) items c
            cell_into-Stores inside l in
        (
          c',
          e,
          s.same_length,
          λ row column h.
              All-OneOf (Right m n (cell a b m k) c') (row, column) items s.right
                (covers row column h),
        )

    -- The product on the host has in every cell the sum of the products of the row of the first matrix and
    -- the column of the second, in the order of k; and whatever the order in which the device runs the
    -- work-items of `myGEMM1` or `myGEMM1b`, and however often, when each is inside the result and every
    -- cell has one, the kernel writes the same matrix.
    pub gemm1-matmult :
        (items : List Item) (c : List A)
        → length c ≡ m * n
        → All (InGrid m n) items
        → Covers m n items
        → (c' : List A) × (matmult a b c m k n ≡ some c')
          × (gemm1 a b c m k items ≡ some c')
          × ((row column : ℕ)
              → InGrid m n (row, column)
              → get_elem? c' (column * m + row) ≡ some (cell a b m k (row, column)))
    unfolding matmult gemm1
    gemm1-matmult items c l inside covers =
        let loops = items_of (range_from 0 m) (range_from 0 n) in
        let (c1, e1, l1, r1) = covering_lem loops c l (loops-InGrid m n) (loops-Covers m n) in
        let (c2, e2, l2, r2) = covering_lem items c l inside covers in
        (
          c1,
          for_each-nested (range_from 0 m) (range_from 0 n)
                (λ item. cell_into a b m k item.0 item.1) c
              ∙ e1,
          e2 ∙ ap some (Right-unique m n (cell a b m k) c2 c1 l2 l1 r2 r1),
          r1,
        )
