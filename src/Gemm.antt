-- ===== src/Gemm.antt =====
-- topencl.cpp and myGEMM.cl: the product of two matrices on the host, `matmult`, and by the kernels of
-- the device. A matrix is stored column by column. An access outside an array has no result.
pub mod Grid
pub mod Order
pub mod Plain
pub mod Load
pub mod Tiles
use hodgepodge.Prelude.{
  ◌>>=◌, ℕ, zero, suc, ◌+◌, ◌*◌, ◌/◌, Bool, List, [], ◌∷◌, Option, none, some, ltb, if◌then◌else◌,
  length, get_elem?, set, map, range_from,
}

-- The operations on `float`: no law of them is used.
pub record Floats (A : Type 0) : Type 0 where
  pub zero_float : A
  pub add : A → A → A
  pub mul : A → A → A
  pub equal : A → A → Bool

-- A loop over a list.
unfoldable pub for_each {ℓ κ} :
    {X : Type ℓ} {S : Type κ} → List X → (X → S → Option S) → S → Option S
for_each [] body s = some s
for_each (x ∷ xs) body s = body x s >>= for_each xs body

abbrev pub store {ℓ} : {A : Type ℓ} → List A → ℕ → A → Option (List A)
store xs i v = if ltb i (length xs) then some (set xs i v) else none

module _ {A : Type 0} ⦃float : Floats A⦄ where
  -- The loop over k: the rounds left, k and `acc`; the reads are at `k * height + row` and `column * depth + k`.
  unfoldable pub dot : List A → List A → ℕ → ℕ → ℕ → ℕ → ℕ → ℕ → A → Option A
  dot a b height depth row column zero k acc = some acc
  dot a b height depth row column (suc left) k acc = get_elem? a (k * height + row) >>= λ x.
      get_elem? b (column * depth + k) >>= λ y.
      dot a b height depth row column left (suc k) (float.add acc (float.mul x y))

  -- One cell of the product, in `matmult` and in the kernels that have no tiles.
  unfoldable pub cell_into : List A → List A → ℕ → ℕ → ℕ → ℕ → List A → Option (List A)
  unfolding dot
  cell_into a b height depth row column c =
      dot a b height depth row column depth 0 float.zero_float >>= store c (column * height + row)

  unfoldable pub matmult : List A → List A → List A → ℕ → ℕ → ℕ → Option (List A)
  unfolding for_each cell_into
  matmult a b c m k n =
      for_each (range_from 0 m)
        (λ row. for_each (range_from 0 n) (λ column. cell_into a b m k row column)) c

  -- The number of the cells where two matrices differ.
  unfoldable pub matcmp : List A → List A → ℕ → ℕ → Option ℕ
  unfolding for_each
  matcmp a b m n =
      for_each (range_from 0 m)
        (λ row. for_each (range_from 0 n) (λ column count. get_elem? a (row + column * m) >>= λ x.
          get_elem? b (row + column * m) >>= λ y.
          some (if float.equal x y then count else suc count)))
        0

  -- `myGEMM1` and `myGEMM1b`, with the work-items in the order in which the device runs them, each by its
  -- row and its column in the result.
  unfoldable pub gemm1 : List A → List A → List A → ℕ → ℕ → List (ℕ × ℕ) → Option (List A)
  unfolding for_each cell_into
  gemm1 a b c m k items = for_each items (λ item. cell_into a b m k item.0 item.1) c

-- A work-group of `myGEMM2`: its identifiers, its work-items in the order in which the device runs them
-- between two barriers, each by its local row and column, and what the local memory holds at the start.
pub record Group (A : Type 0) : Type 0 where
  pub id : ℕ × ℕ
  pub items : List (ℕ × ℕ)
  pub asub : List A
  pub bsub : List A

-- The edge of a tile, `TS`.
abbrev pub ts : ℕ
ts = 16

-- The row and the column in the result of a work-item of a group.
abbrev pub global : ℕ × ℕ → ℕ × ℕ → ℕ × ℕ
global (group_row, group_column) (row, column) = (ts * group_row + row, ts * group_column + column)

-- The private variables of the work-items, each beside its work-item.
abbrev pub each {ℓ} :
    {X : Type ℓ} {Y : Type ℓ} → (X → Y → Option Y) → List (X × Y) → Option (List (X × Y))
each f [] = some []
each f ((x, y) ∷ xs) = f x y >>= λ y'. each f xs >>= λ rest. some ((x, y') ∷ rest)

module _ {A : Type 0} ⦃float : Floats A⦄ where
  -- A work-item's loads of a tile into the local memory, where cell [column][row] is at `column * ts + row`.
  unfoldable pub load_item :
      List A → List A → ℕ → ℕ → ℕ × ℕ → ℕ → ℕ × ℕ → List A × List A → Option (List A × List A)
  load_item a b m k group t (row, column) (asub, bsub) =
      let (global_row, global_column) = global group (row, column) in
      (get_elem? a ((ts * t + column) * m + global_row) >>= store asub (column * ts + row))
      >>= λ asub'.
          (get_elem? b (global_column * k + (ts * t + row)) >>= store bsub (column * ts + row))
          >>= λ bsub'. some (asub', bsub')

  -- A work-item's part of the product of a tile.
  unfoldable pub compute_item : List A × List A → ℕ × ℕ → A → Option A
  unfolding dot
  compute_item (asub, bsub) (row, column) acc = dot asub bsub ts ts row column ts 0 acc

  -- The tiles that are left, with a barrier after the loads and one after the products.
  unfoldable pub tiles :
      List A
      → List A
      → ℕ
      → ℕ
      → ℕ × ℕ
      → List (ℕ × ℕ)
      → ℕ
      → ℕ
      → List A × List A
      → List ((ℕ × ℕ) × A)
      → Option (List ((ℕ × ℕ) × A))
  unfolding for_each load_item compute_item
  tiles a b m k group items zero t local accs = some accs
  tiles a b m k group items (suc left) t local accs =
      for_each items (load_item a b m k group t) local >>= λ local'.
      each (compute_item local') accs >>= λ accs'.
      tiles a b m k group items left (suc t) local' accs'

  unfoldable pub gemm2_group : List A → List A → ℕ → ℕ → Group A → List A → Option (List A)
  unfolding for_each tiles
  gemm2_group a b m k group c =
      tiles a b m k group.id group.items (k / ts) 0 (group.asub, group.bsub)
        (map (λ item. (item, float.zero_float)) group.items)
      >>= λ accs.
          for_each accs
            (λ entry c'.
              let (row, column) = global group.id entry.0 in store c' (column * m + row) entry.1)
            c

  -- `myGEMM2`, with the work-groups in the order in which the device runs them.
  unfoldable pub gemm2 : List A → List A → List A → ℕ → ℕ → List (Group A) → Option (List A)
  unfolding for_each gemm2_group
  gemm2 a b c m k groups = for_each groups (gemm2_group a b m k) c
