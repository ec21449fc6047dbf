-- ===== src/Bitmap/Rows.antt =====
-- The cells of a bitmap in the order of the loops come at rising places of the image.
use native.Mathlib.Nat.{mul-le-mul_right}
use hodgepodge.Prelude.{
  ℕ, zero, suc, ◌+◌, ◌*◌, ◌<◌, ◌≤◌, List, [], ◌∷◌, ◌++◌, All, All-map, range_from, arith,
}
use hodgepodge.Gemm.Order.{row_items, items_of, All-append, All-items_of, range_from-bounds}
use hodgepodge.Bitmap.Paint.{Rising}

module _ {P : Type 0} (f : ℕ × ℕ → P → P) (place : ℕ × ℕ → ℕ) where
  Rising-append :
      (xs ys : List (ℕ × ℕ))
      → Rising place f xs
      → Rising place f ys
      → All (λ x. All (λ y. place x < place y) ys) xs
      → Rising place f (xs ++ ys)
  Rising-append [] ys h k l = k
  Rising-append (x ∷ xs) ys (h, hs) k (l, ls) =
      (All-append (λ y. place x < place y) xs ys h l, Rising-append xs ys hs k ls)

abbrev pub place_of : (ℕ → ℕ) → (ℕ → ℕ) → ℕ → ℕ × ℕ → ℕ
place_of u v cols (i, j) = u i * cols + v j

-- The row of the image of each row of the bitmap, and the column of each column.
module _ {P : Type 0} (f : ℕ × ℕ → P → P) (u v : ℕ → ℕ) (cols first_row first_column : ℕ)
    (u_rises : (i i' : ℕ) → first_row ≤ i → i < i' → u i < u i')
    (v_rises : (j j' : ℕ) → first_column ≤ j → j < j' → v j < v j') where
  abbrev place : ℕ × ℕ → ℕ
  place = place_of u v cols

  row-Rising :
      (i j count : ℕ) → first_column ≤ j → Rising place f (row_items i (range_from j count))
  row-Rising i j zero h = tt
  row-Rising i j (suc count) h = (
    All-map (λ k. (suc j ≤ k) × (k < suc j + count)) (λ y. place (i, j) < place y) (λ k. (i, k))
        (λ k l. omega (arith, v_rises j k h l.0)) (range_from (suc j) count)
        (range_from-bounds (suc j) count),
    row-Rising i (suc j) count (omega arith),
  )

  next_row : (i i' j j' : ℕ) → first_row ≤ i → i < i' → v j < cols → place (i, j) < place (i', j')
  next_row i i' j j' h k l =
      let up : suc (u i) * cols ≤ u i' * cols = mul-le-mul_right cols (u_rises i i' h k) in
      grind arith

  pub rows-Rising :
      (i rows j count : ℕ)
      → first_row ≤ i
      → first_column ≤ j
      → All (λ k. v k < cols) (range_from j count)
      → Rising place f (items_of (range_from i rows) (range_from j count))
  rows-Rising i zero j count h k l = tt
  rows-Rising i (suc rows) j count h k l =
      Rising-append f place (row_items i (range_from j count))
        (items_of (range_from (suc i) rows) (range_from j count)) (row-Rising i j count k)
        (rows-Rising (suc i) rows j count (omega arith) k l)
        (All-map (λ c. v c < cols)
          (λ x.
            All (λ y. place x < place y) (items_of (range_from (suc i) rows) (range_from j count)))
          (λ c. (i, c))
          (λ c inside.
            All-items_of (λ y. place (i, c) < place y) (λ r. (suc i ≤ r) × (r < suc i + rows))
              (λ c'. v c' < cols) (λ r c' p q. next_row i r c c' h p.0 inside)
              (range_from (suc i) rows) (range_from j count) (range_from-bounds (suc i) rows) l)
          (range_from j count) l)
