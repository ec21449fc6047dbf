-- ===== src/Tests/GemmTests.antt =====
-- The products of matrices at concrete inputs, with numbers in place of `float`.
use hodgepodge.Prelude.{
  ℕ, zero, suc, ◌+◌, ◌*◌, ◌==◌, ◌≡◌, refl, List, [], ◌∷◌, some, get_elem?, range_from, replicate,
  inl, inr, arith,
}
use hodgepodge.Gemm.{Floats, Group, ts, gemm1, gemm2, matmult, matcmp}
use hodgepodge.Gemm.Grid.{Item, InGrid, Covers}
use hodgepodge.Gemm.Order.{items_of, loops-InGrid, loops-Covers}
use hodgepodge.Gemm.Plain.{cell, gemm1-matmult}
use hodgepodge.Gemm.Tiles.{IsGroup, gemm2-matmult}

instance ℕ_floats : Floats ℕ
ℕ_floats = record { zero_float = 0; add = λ x y. x + y; mul = λ x y. x * y; equal = λ x y. x == y }

abbrev left_matrix : List ℕ
left_matrix = 1 ∷ 2 ∷ 3 ∷ 4 ∷ 5 ∷ 6 ∷ []

abbrev right_matrix : List ℕ
right_matrix = 7 ∷ 8 ∷ 9 ∷ 1 ∷ 0 ∷ 2 ∷ []

abbrev reversed_items : List Item
reversed_items = (1, 1) ∷ (0, 1) ∷ (1, 0) ∷ (0, 0) ∷ []

product_of_two :
    matmult left_matrix right_matrix (0 ∷ 0 ∷ 0 ∷ 0 ∷ []) 2 3 2 ≡ some (76 ∷ 100 ∷ 11 ∷ 14 ∷ [])
unfolding matmult ℕ_floats
product_of_two = refl

one_difference : matcmp left_matrix (1 ∷ 2 ∷ 3 ∷ 4 ∷ 5 ∷ 7 ∷ []) 2 3 ≡ some 1
unfolding matcmp ℕ_floats
one_difference = refl

reversed-Covers : Covers 2 2 reversed_items
reversed-Covers zero zero h = inr (inr (inr (inl refl)))
reversed-Covers zero (suc zero) h = inr (inl refl)
reversed-Covers (suc zero) zero h = inr (inr (inl refl))
reversed-Covers (suc zero) (suc zero) h = inl refl
reversed-Covers zero (suc (suc column)) h = absurd (omega (arith, h.1))
reversed-Covers (suc zero) (suc (suc column)) h = absurd (omega (arith, h.1))
reversed-Covers (suc (suc row)) column h = absurd (omega (arith, h.0))

gemm1-matmult_example :
    (c' : List ℕ) × (matmult left_matrix right_matrix (0 ∷ 0 ∷ 0 ∷ 0 ∷ []) 2 3 2 ≡ some c')
    × (gemm1 left_matrix right_matrix (0 ∷ 0 ∷ 0 ∷ 0 ∷ []) 2 3 reversed_items ≡ some c')
    × ((row column : ℕ)
        → InGrid 2 2 (row, column)
        → get_elem? c' (column * 2 + row) ≡ some (cell left_matrix right_matrix 2 3 (row, column)))
gemm1-matmult_example =
    gemm1-matmult left_matrix right_matrix 2 3 2 refl refl reversed_items (0 ∷ 0 ∷ 0 ∷ 0 ∷ []) refl
      (
        (omega arith, omega arith),
        (
          (omega arith, omega arith),
          ((omega arith, omega arith), ((omega arith, omega arith), tt)),
        ),
      )
      reversed-Covers

abbrev tile_of : ℕ → List ℕ
tile_of x = replicate 256 x

abbrev one_group : Group ℕ
one_group = record {
  id = (0, 0);
  items = items_of (range_from 0 ts) (range_from 0 ts);
  asub = tile_of 9;
  bsub = tile_of 9;
}

one_group-IsGroup : IsGroup 1 1 one_group
one_group-IsGroup = record {
  id_inside = (omega arith, omega arith);
  items_inside = loops-InGrid ts ts;
  items_cover = loops-Covers ts ts;
  asub_size = refl;
  bsub_size = refl;
}

one_group-Covers : Covers 1 1 ((0, 0) ∷ [])
one_group-Covers = loops-Covers 1 1

gemm2-matmult_example :
    (c' : List ℕ) × (gemm2 (tile_of 2) (tile_of 3) (tile_of 0) 16 16 (one_group ∷ []) ≡ some c')
    × (matmult (tile_of 2) (tile_of 3) (tile_of 0) 16 16 16 ≡ some c')
gemm2-matmult_example =
    gemm2-matmult (tile_of 2) (tile_of 3) 16 16 16 1 1 1 refl refl refl refl refl (one_group ∷ [])
      (tile_of 0) (one_group-IsGroup, tt) one_group-Covers refl
