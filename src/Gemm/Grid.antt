-- ===== src/Gemm/Grid.antt =====
-- Writes to a matrix that is stored column by column, in any order.
use native.Mathlib.Nat.{
  suc-mul, mul_comm, mod-lt, div-mul-le_self, div-lt_iff_lt-mul, mod-eq-sub-div-mul,
}
use hodgepodge.Prelude.{
  ◌>>=◌, ℕ, zero, suc, ◌+◌, ◌*◌, ◌/◌, ◌%◌, ◌<◌, ◌≡◌, ◌≢◌, ◌⊎◌, inl, inr, refl, sym, ap, ap₂, ◌∙◌,
  List, [], ◌∷◌, Option, some, length, get_elem?, set, arith, All, length-set, subst, Bool-cases,
  ◌==◌, ==_iff,
}
use mathlib.Core.Option.{some-injective}
use hodgepodge.Gemm.{for_each, store}

pub index_in_range :
    (height width row column : ℕ)
    → row < height
    → column < width
    → column * height + row < height * width
index_in_range height width row column h k = grind arith

pub index_same :
    (height row column row' column' : ℕ)
    → row < height
    → row' < height
    → column * height + row ≡ column' * height + row'
    → (row ≡ row') × (column ≡ column')
index_same height row zero row' zero h h' e = (omega arith, refl)
index_same height row zero row' (suc c') h h' e = absurd (omega (arith, suc-mul c' height))
index_same height row (suc c) row' zero h h' e = absurd (omega (arith, suc-mul c height))
index_same height row (suc c) row' (suc c') h h' e =
    let (p, q) =
      index_same height row c row' c' h h' (omega (arith, suc-mul c height, suc-mul c' height)) in
    (p, ap suc q)

module _ {ℓ} {A : Type ℓ} where
  pub get_elem?-set_same :
      (xs : List A) (i : ℕ) (v : A) → i < length xs → get_elem? (set xs i v) i ≡ some v
  get_elem?-set_same [] i v h = absurd (omega arith)
  get_elem?-set_same (x ∷ xs) zero v h = refl
  get_elem?-set_same (x ∷ xs) (suc i) v h = get_elem?-set_same xs i v (omega arith)

  pub get_elem?-set_other :
      (xs : List A) (i j : ℕ) (v : A) → i ≢ j → get_elem? (set xs i v) j ≡ get_elem? xs j
  get_elem?-set_other [] i j v n = refl
  get_elem?-set_other (x ∷ xs) zero zero v n = absurd (n refl)
  get_elem?-set_other (x ∷ xs) zero (suc j) v n = refl
  get_elem?-set_other (x ∷ xs) (suc i) zero v n = refl
  get_elem?-set_other (x ∷ xs) (suc i) (suc j) v n =
      get_elem?-set_other xs i j v (λ e. n (ap suc e))

  pub list_ext :
      (xs ys : List A)
      → length xs ≡ length ys
      → ((i : ℕ) → i < length xs → get_elem? xs i ≡ get_elem? ys i)
      → xs ≡ ys
  list_ext [] [] e h = refl
  list_ext [] (y ∷ ys) e h = absurd (omega arith)
  list_ext (x ∷ xs) [] e h = absurd (omega arith)
  list_ext (x ∷ xs) (y ∷ ys) e h =
      ap₂ ◌∷◌ (some-injective x y (h 0 (omega arith)))
        (list_ext xs ys (omega arith) (λ i k. h (suc i) (omega arith)))

-- The value is in the list.
abbrev pub OneOf : {A : Type 0} → A → List A → Type 0
OneOf x [] = ⊥
OneOf x (y ∷ ys) = (x ≡ y) ⊎ OneOf x ys

pub All-OneOf : {A : Type 0} (P : A → Type 0) (x : A) (xs : List A) → All P xs → OneOf x xs → P x
All-OneOf P x [] h o = absurd o
All-OneOf P x (y ∷ ys) h (inl e) = subst P (sym e) h.0
All-OneOf P x (y ∷ ys) h (inr o) = All-OneOf P x ys h.1 o

abbrev pub Item : Type 0
Item = ℕ × ℕ

abbrev pub InGrid : ℕ → ℕ → Item → Type 0
InGrid height width (row, column) = (row < height) × (column < width)

-- Every cell has a work-item.
abbrev pub Covers : ℕ → ℕ → List Item → Type 0
Covers height width items =
    (row column : ℕ) → InGrid height width (row, column) → OneOf (row, column) items

module _ {A : Type 0} (height width : ℕ) (value : Item → A) where
  abbrev pub place : Item → ℕ
  place (row, column) = column * height + row

  -- The cell holds its value.
  abbrev pub Right : List A → Item → Type 0
  Right c item = get_elem? c (place item) ≡ some (value item)

  -- A write of right values to some cells of a matrix.
  pub record Stored (items : List Item) (c c' : List A) : Type 0 where
    pub same_length : length c' ≡ height * width
    pub right : All (Right c') items
    pub keeps :
        (row column : ℕ)
        → InGrid height width (row, column)
        → Right c (row, column)
        → Right c' (row, column)

  set-keeps :
      (c : List A) (row column row' column' : ℕ)
      → column * height + row < length c
      → row < height
      → row' < height
      → Right c (row', column')
      → Right (set c (column * height + row) (value (row, column))) (row', column')
  set-keeps c row column row' column' inside h h' r =
      elim (Bool-cases (column * height + row == column' * height + row')) [
        | inl e ↦
            let at = (==_iff (column * height + row) (column' * height + row')).0 e in
            let (p, q) = index_same height row column row' column' h h' at in
            ap (get_elem? (set c (column * height + row) (value (row, column)))) (sym at)
            ∙ get_elem?-set_same c (column * height + row) (value (row, column)) inside
            ∙ ap₂ (λ x y. some (value (x, y))) p q
        | inr n ↦
            get_elem?-set_other c (column * height + row) (column' * height + row')
              (value (row, column))
              (λ e. absurd (cc (n, (==_iff (column * height + row) (column' * height + row')).1 e)))
            ∙ r
      ]

  pub store-Stored :
      (c : List A) (row column : ℕ)
      → InGrid height width (row, column)
      → length c ≡ height * width
      → (c' : List A) × (store c (column * height + row) (value (row, column)) ≡ some c')
        × Stored ((row, column) ∷ []) c c'
  store-Stored c row column (h, k) l =
      let inside : column * height + row < length c =
        omega (arith, index_in_range height width row column h k, l) in
      (
        set c (column * height + row) (value (row, column)),
        ground (arith, inside),
        record {
          same_length = length-set c (column * height + row) (value (row, column)) ∙ l;
          right = (get_elem?-set_same c (column * height + row) (value (row, column)) inside, tt);
          keeps = λ row' column' g r. set-keeps c row column row' column' inside h g.0 r;
        },
      )

  -- What a work-item does: it stores the right value in its cell.
  abbrev pub Stores : (Item → List A → Option (List A)) → Type 0
  Stores body =
      (row column : ℕ) (c : List A)
      → InGrid height width (row, column)
      → length c ≡ height * width
      → (c' : List A) × (body (row, column) c ≡ some c') × Stored ((row, column) ∷ []) c c'

  -- Work-items in any order, each as often as one likes.
  pub for_each-Stored :
      (body : Item → List A → Option (List A)) (items : List Item) (c : List A)
      → Stores body
      → All (InGrid height width) items
      → length c ≡ height * width
      → (c' : List A) × (for_each items body c ≡ some c') × Stored items c c'
  unfolding for_each
  for_each-Stored body [] c st g l =
      (c, refl, record { same_length = l; right = tt; keeps = λ row column h r. r })
  for_each-Stored body ((row, column) ∷ items) c st (g, gs) l =
      let (c1, e1, s1) = st row column c g l in
      let (c2, e2, s2) = for_each-Stored body items c1 st gs s1.same_length in
      (
        c2,
        rw (e1, ◌>>=◌) e2,
        record {
          same_length = s2.same_length;
          right = (s2.keeps row column g s1.right.0, s2.right);
          keeps = λ row' column' h r. s2.keeps row' column' h (s1.keeps row' column' h r);
        },
      )

  row_inside : (i : ℕ) → i < height * width → 0 < height
  row_inside i h = grind arith

  -- Two matrices with the right values in every cell are the same.
  pub Right-unique :
      (c c' : List A)
      → length c ≡ height * width
      → length c' ≡ height * width
      → ((row column : ℕ) → InGrid height width (row, column) → Right c (row, column))
      → ((row column : ℕ) → InGrid height width (row, column) → Right c' (row, column))
      → c ≡ c'
  Right-unique c c' l l' h h' = list_ext c c' (l ∙ sym l') (λ i k.
      let inside : i < height * width = omega (arith, k, l) in
      let positive = row_inside i inside in
      let g : InGrid height width (i % height, i / height) = (
        mod-lt i positive,
        (div-lt_iff_lt-mul positive).1 (omega (arith, inside, mul_comm height width)),
      ) in
      let at : i / height * height + i % height ≡ i =
        omega (arith, mod-eq-sub-div-mul i height, div-mul-le_self i height) in
      subst (λ z. get_elem? c z ≡ get_elem? c' z) at
        (h (i % height) (i / height) g ∙ sym (h' (i % height) (i / height) g)))
