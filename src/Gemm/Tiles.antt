-- ===== src/Gemm/Tiles.antt =====
-- The kernel with tiles, `myGEMM2`, against the product on the host.
use hodgepodge.Prelude.{
  ◌>>=◌, ℕ, ◌+◌, ◌*◌, ◌/◌, ◌%◌, ◌≡◌, refl, sym, ap, ap₂, ◌∙◌, List, [], ◌∷◌, ◌++◌, Option, some,
  length, map, arith, All, All-map, subst, inl, inr,
}
use hodgepodge.Gemm.{
  for_each, store, Floats, ts, global, Group, gemm2_group, gemm2, cell_into, matmult, gemm1,
}
use hodgepodge.Gemm.Grid.{OneOf, Item, InGrid, Covers, store-Stored, for_each-Stored}
use hodgepodge.Gemm.Order.{
  for_each-append, for_each-map, for_each-same, All-append, OneOf-left, OneOf-right, OneOf-map,
}
use hodgepodge.Gemm.Plain.{cell, sum_from, product, cell_into_lem, cell_into-Stores, gemm1-matmult}
use hodgepodge.Gemm.Load.{tiles_lem}

-- A work-group as the host starts it: of every work-item of the tile there is at least one, and none besides.
pub record IsGroup {A : Type 0} (rows columns : ℕ) (group : Group A) : Type 0 where
  pub id_inside : InGrid rows columns group.id
  pub items_inside : All (InGrid ts ts) group.items
  pub items_cover : Covers ts ts group.items
  pub asub_size : length group.asub ≡ ts * ts
  pub bsub_size : length group.bsub ≡ ts * ts

-- The cells of the result of a group's work-items, and of the groups' in their order.
abbrev cells_of : {A : Type 0} → Group A → List Item
cells_of group = map (global group.id) group.items

abbrev all_cells : {A : Type 0} → List (Group A) → List Item
all_cells [] = []
all_cells (group ∷ groups) = cells_of group ++ all_cells groups

global-InGrid :
    (rows columns : ℕ) (group item : Item)
    → InGrid rows columns group
    → InGrid ts ts item
    → InGrid (ts * rows) (ts * columns) (global group item)
global-InGrid rows columns (r, c) (row, column) (p, q) (u, v) = (omega arith, omega arith)

global-split :
    (row column : ℕ) → global (row / ts, column / ts) (row % ts, column % ts) ≡ (row, column)
global-split row column =
    let p : ts * (row / ts) + row % ts ≡ row = omega arith in
    let q : ts * (column / ts) + column % ts ≡ column = omega arith in ap₂ (λ x y. (x, y)) p q

module _ {A : Type 0} (rows columns : ℕ) where
  all_cells-InGrid :
      (groups : List (Group A))
      → All (IsGroup rows columns) groups
      → All (InGrid (ts * rows) (ts * columns)) (all_cells groups)
  all_cells-InGrid [] h = tt
  all_cells-InGrid (group ∷ groups) (h, hs) =
      All-append (InGrid (ts * rows) (ts * columns)) (cells_of group) (all_cells groups)
        (All-map (InGrid ts ts) (InGrid (ts * rows) (ts * columns)) (global group.id)
          (λ item p. global-InGrid rows columns group.id item h.id_inside p) group.items
          h.items_inside)
        (all_cells-InGrid groups hs)

  all_cells-OneOf :
      (groups : List (Group A)) (id item : Item)
      → All (IsGroup rows columns) groups
      → OneOf id (map (λ group. group.id) groups)
      → InGrid ts ts item
      → OneOf (global id item) (all_cells groups)
  all_cells-OneOf [] id item h o p = absurd o
  all_cells-OneOf (group ∷ groups) id item (h, hs) (inl e) p =
      OneOf-left (global id item) (cells_of group) (all_cells groups) (
        subst (λ i. OneOf (global i item) (cells_of group)) (sym e)
          (OneOf-map (global group.id) item group.items (h.items_cover item.0 item.1 p)))
  all_cells-OneOf (group ∷ groups) id item (h, hs) (inr o) p =
      OneOf-right (global id item) (cells_of group) (all_cells groups)
        (all_cells-OneOf groups id item hs o p)

  all_cells-Covers :
      (groups : List (Group A))
      → All (IsGroup rows columns) groups
      → Covers rows columns (map (λ group. group.id) groups)
      → Covers (ts * rows) (ts * columns) (all_cells groups)
  all_cells-Covers groups h covers row column (p, q) =
      subst (λ i. OneOf i (all_cells groups)) (global-split row column)
        (all_cells-OneOf groups (row / ts, column / ts) (row % ts, column % ts) h
          (covers (row / ts) (column / ts) (omega arith, omega arith)) (omega arith, omega arith))

module _ {A : Type 0} ⦃float : Floats A⦄ (a b : List A) (m k n rows count columns : ℕ)
    (m_size : m ≡ ts * rows) (k_size : k ≡ ts * count) (n_size : n ≡ ts * columns)
    (a_length : length a ≡ m * k) (b_length : length b ≡ k * n) where
  plain : Item → List A → Option (List A)
  plain item c = cell_into a b m k item.0 item.1 c

  inside : (item : Item) → InGrid (ts * rows) (ts * columns) item → InGrid m n item
  inside (row, column) (p, q) = (omega arith, omega arith)

  -- The sum of all tiles, and what a work-item stores at the end.
  abbrev whole_sum : Item → Item → A
  whole_sum group item =
      sum_from float.zero_float (ts * count) 0 (product a b m k (global group item))

  abbrev finish : Item → Item → List A → Option (List A)
  finish group item c =
      store c ((global group item).1 * m + (global group item).0) (whole_sum group item)

  finish_lem :
      (group item : Item) (c : List A)
      → InGrid rows columns group
      → InGrid ts ts item
      → length c ≡ m * n
      → (c' : List A) × (finish group item c ≡ some c')
        × (plain (global group item) c ≡ some c')
        × (length c' ≡ m * n)
  unfolding plain
  finish_lem group item c h p l =
      let (u, v) = inside (global group item) (global-InGrid rows columns group item h p) in
      let (row, column) = global group item in
      let full : ts * count ≡ k = omega arith in
      let (c', e, s) = store-Stored m n (cell a b m k) c row column (u, v) l in
      (
        c',
        ap
              (λ i.
                store c (column * m + row)
                  (sum_from float.zero_float i 0 (product a b m k (row, column))))
              full
            ∙ e,
        cell_into_lem a b m k n a_length b_length row column c u v ∙ e,
        s.same_length,
      )

  -- A group writes what its work-items would write without tiles.
  group_lem :
      (group : Group A) (c : List A)
      → IsGroup rows columns group
      → length c ≡ m * n
      → gemm2_group a b m k group c ≡ for_each (cells_of group) plain c
  unfolding gemm2_group plain
  group_lem group c h l =
      let fill : k / ts ≡ count = omega arith in
      let sums =
        tiles_lem a b m k n rows count columns m_size k_size n_size a_length b_length group.id
          h.id_inside group.items count 0 (group.asub, group.bsub) h.items_inside h.items_cover
          (omega arith) h.asub_size h.bsub_size in
      rw (fill, sums, ◌>>=◌)
        (for_each-map (λ item. (item, whole_sum group.id item)) group.items
            (λ entry c'.
              store c' ((global group.id entry.0).1 * m + (global group.id entry.0).0) entry.1)
            c
          ∙ for_each-same (InGrid ts ts) (λ c'. length c' ≡ m * n) group.items (finish group.id)
              (λ item. plain (global group.id item))
              (λ item c' p g. finish_lem group.id item c' h.id_inside p g) c h.items_inside l
          ∙ sym (for_each-map (global group.id) group.items plain c))

  -- The groups in any order write what their work-items would write without tiles.
  groups_lem :
      (groups : List (Group A)) (c : List A)
      → All (IsGroup rows columns) groups
      → length c ≡ m * n
      → gemm2 a b c m k groups ≡ gemm1 a b c m k (all_cells groups)
  unfolding gemm2 gemm1 plain
  groups_lem [] c h l = refl
  groups_lem (group ∷ groups) c (h, hs) l =
      let cells_inside =
        All-map (InGrid ts ts) (InGrid m n) (global group.id)
          (λ item p.
            inside (global group.id item) (global-InGrid rows columns group.id item h.id_inside p))
          group.items h.items_inside in
      let (c1, e1, s1) =
        for_each-Stored m n (cell a b m k) plain (cells_of group) c
          (cell_into-Stores a b m k n a_length b_length) cells_inside l in
      rw
        (
          group_lem group c h l,
          for_each-append (cells_of group) (all_cells groups) plain c,
          e1,
          ◌>>=◌,
        )
        (groups_lem groups c1 hs s1.same_length)

  -- The sizes are whole numbers of tiles. Whatever the order in which the device runs the work-groups of
  -- `myGEMM2`, the order in which it runs the work-items of a group between two barriers, and what is in
  -- the local memory at the start, when every tile of the result has a group and every cell of a tile a
  -- work-item, the kernel writes the matrix that the product on the host writes.
  pub gemm2-matmult :
      (groups : List (Group A)) (c : List A)
      → All (IsGroup rows columns) groups
      → Covers rows columns (map (λ group. group.id) groups)
      → length c ≡ m * n
      → (c' : List A) × (gemm2 a b c m k groups ≡ some c') × (matmult a b c m k n ≡ some c')
  gemm2-matmult groups c h covers l =
      let (c', e, e', r) =
        gemm1-matmult a b m k n a_length b_length (all_cells groups) c l
          (subst (λ x. All (InGrid x n) (all_cells groups)) (sym m_size)
            (subst (λ y. All (InGrid (ts * rows) y) (all_cells groups)) (sym n_size)
              (all_cells-InGrid rows columns groups h)))
          (λ row column (p, q).
            all_cells-Covers rows columns groups h covers row column (omega arith, omega arith)) in
      (c', groups_lem groups c h l ∙ e', e)
