-- ===== src/Gemm/Order.antt =====
-- The cells of a matrix in the order of two nested loops, and loops over them.
use hodgepodge.Prelude.{
  ◌>>=◌, ℕ, zero, suc, ◌+◌, ◌<◌, ◌≤◌, ◌≡◌, refl, sym, ap, ◌∙◌, List, [], ◌∷◌, ◌++◌, Option, none,
  some, map, arith, All, range_from, inl, inr, All-map, All-imp, subst, dec_lt,
}
use hodgepodge.Gemm.{for_each}
use hodgepodge.Gemm.Grid.{OneOf, Item, InGrid, Covers}

pub bind_same {ℓ κ} :
    {A : Type ℓ} {B : Type κ} (o : Option A) (f g : A → Option B)
    → ((a : A) → f a ≡ g a)
    → (o >>= f) ≡ (o >>= g)
bind_same none f g h = refl
bind_same (some a) f g h = h a

bind_assoc {ℓ κ μ} :
    {A : Type ℓ} {B : Type κ} {C : Type μ} (o : Option A) (f : A → Option B) (g : B → Option C)
    → (o >>= f >>= g) ≡ (o >>= (λ a. f a >>= g))
bind_assoc none f g = refl
bind_assoc (some a) f g = refl

module _ {ℓ κ} {X : Type ℓ} {S : Type κ} where
  pub for_each-append :
      (xs ys : List X) (body : X → S → Option S) (s : S)
      → for_each (xs ++ ys) body s ≡ (for_each xs body s >>= for_each ys body)
  unfolding for_each
  for_each-append [] ys body s = refl
  for_each-append (x ∷ xs) ys body s =
      bind_same (body x s) (for_each (xs ++ ys) body) (λ t. for_each xs body t >>= for_each ys body)
        (for_each-append xs ys body)
      ∙ sym (bind_assoc (body x s) (for_each xs body) (for_each ys body))

  pub for_each-map :
      {Y : Type ℓ} (f : Y → X) (ys : List Y) (body : X → S → Option S) (s : S)
      → for_each (map f ys) body s ≡ for_each ys (λ y. body (f y)) s
  unfolding for_each
  for_each-map f [] body s = refl
  for_each-map f (y ∷ ys) body s =
      bind_same (body (f y) s) (for_each (map f ys) body) (for_each ys (λ z. body (f z)))
        (for_each-map f ys body)

  -- The bodies need to agree only where the loop comes.
  pub for_each-same :
      (P : X → Type 0) (Good : S → Type 0) (xs : List X) (body body' : X → S → Option S)
      → ((x : X) (s : S)
          → P x
          → Good s
          → (s' : S) × (body x s ≡ some s') × (body' x s ≡ some s') × Good s')
      → (s : S) → All P xs
      → Good s
      → for_each xs body s ≡ for_each xs body' s
  unfolding for_each
  for_each-same P Good [] body body' h s p g = refl
  for_each-same P Good (x ∷ xs) body body' h s (p, ps) g =
      let (s', e, e', g') = h x s p g in
      rw (e, e', ◌>>=◌) (for_each-same P Good xs body body' h s' ps g')

abbrev pub row_items : ℕ → List ℕ → List Item
row_items row columns = map (λ column. (row, column)) columns

abbrev pub items_of : List ℕ → List ℕ → List Item
items_of [] columns = []
items_of (row ∷ rows) columns = row_items row columns ++ items_of rows columns

pub for_each-nested :
    {S : Type 0} (rows columns : List ℕ) (body : Item → S → Option S) (s : S)
    → for_each rows (λ row. for_each columns (λ column. body (row, column))) s
      ≡ for_each (items_of rows columns) body s
unfolding for_each
for_each-nested [] columns body s = refl
for_each-nested (row ∷ rows) columns body s =
    let first = for_each columns (λ column. body (row, column)) s in
    bind_same first (for_each rows (λ r. for_each columns (λ column. body (r, column))))
      (for_each (items_of rows columns) body) (for_each-nested rows columns body)
    ∙ ap (λ o. o >>= for_each (items_of rows columns) body)
        (sym (for_each-map (λ column. (row, column)) columns body s))
    ∙ sym (for_each-append (row_items row columns) (items_of rows columns) body s)

pub All-append :
    {A : Type 0} (P : A → Type 0) (xs ys : List A) → All P xs → All P ys → All P (xs ++ ys)
All-append P [] ys h h' = h'
All-append P (x ∷ xs) ys (h, hs) h' = (h, All-append P xs ys hs h')

range_from-below :
    (i count bound : ℕ) → i + count ≤ bound → All (λ j. j < bound) (range_from i count)
range_from-below i zero bound h = tt
range_from-below i (suc count) bound h =
    (omega arith, range_from-below (suc i) count bound (omega arith))

pub range_from-OneOf : (i count j : ℕ) → i ≤ j → j < i + count → OneOf j (range_from i count)
range_from-OneOf i zero j h k = absurd (omega arith)
range_from-OneOf i (suc count) j h k = elim (dec_lt i j) [
  | yes less ↦ inr (range_from-OneOf (suc i) count j (omega arith) (omega arith))
  | no n ↦ inl (omega arith)
]

pub OneOf-map :
    {A B : Type 0} (f : A → B) (x : A) (xs : List A) → OneOf x xs → OneOf (f x) (map f xs)
OneOf-map f x [] o = absurd o
OneOf-map f x (y ∷ ys) (inl e) = inl (ap f e)
OneOf-map f x (y ∷ ys) (inr o) = inr (OneOf-map f x ys o)

pub OneOf-left : {A : Type 0} (x : A) (xs ys : List A) → OneOf x xs → OneOf x (xs ++ ys)
OneOf-left x [] ys o = absurd o
OneOf-left x (y ∷ xs) ys (inl e) = inl e
OneOf-left x (y ∷ xs) ys (inr o) = inr (OneOf-left x xs ys o)

pub OneOf-right : {A : Type 0} (x : A) (xs ys : List A) → OneOf x ys → OneOf x (xs ++ ys)
OneOf-right x [] ys o = o
OneOf-right x (y ∷ xs) ys o = inr (OneOf-right x xs ys o)

pub All-items_of :
    (P : Item → Type 0) (Q R : ℕ → Type 0)
    → ((row column : ℕ) → Q row → R column → P (row, column))
    → (rows columns : List ℕ) → All Q rows
    → All R columns
    → All P (items_of rows columns)
All-items_of P Q R f [] columns h k = tt
All-items_of P Q R f (row ∷ rows) columns (h, hs) k =
    All-append P (row_items row columns) (items_of rows columns)
      (All-map R P (λ column. (row, column)) (λ column r. f row column h r) columns k)
      (All-items_of P Q R f rows columns hs k)

pub range_from-bounds : (i count : ℕ) → All (λ j. (i ≤ j) × (j < i + count)) (range_from i count)
range_from-bounds i zero = tt
range_from-bounds i (suc count) = (
  (omega arith, omega arith),
  All-imp (λ j. (suc i ≤ j) × (j < suc i + count)) (λ j. (i ≤ j) × (j < i + suc count))
      (λ j h. (omega (arith, h.0), omega (arith, h.1))) (range_from (suc i) count)
      (range_from-bounds (suc i) count),
)

pub items_of-OneOf :
    (rows columns : List ℕ) (row column : ℕ)
    → OneOf row rows
    → OneOf column columns
    → OneOf (row, column) (items_of rows columns)
items_of-OneOf [] columns row column o o' = absurd o
items_of-OneOf (r ∷ rows) columns row column (inl e) o' =
    OneOf-left (row, column) (row_items r columns) (items_of rows columns)
      (subst (λ q. OneOf (row, column) (row_items q columns)) e
        (OneOf-map (λ c. (row, c)) column columns o'))
items_of-OneOf (r ∷ rows) columns row column (inr o) o' =
    OneOf-right (row, column) (row_items r columns) (items_of rows columns)
      (items_of-OneOf rows columns row column o o')

module _ (height width : ℕ) where
  -- The items of the two nested loops are the cells of the matrix.
  pub loops-InGrid : All (InGrid height width) (items_of (range_from 0 height) (range_from 0 width))
  loops-InGrid =
      All-items_of (InGrid height width) (λ row. row < height) (λ column. column < width)
        (λ row column h k. (h, k)) (range_from 0 height) (range_from 0 width)
        (range_from-below 0 height height (omega arith))
        (range_from-below 0 width width (omega arith))

  pub loops-Covers : Covers height width (items_of (range_from 0 height) (range_from 0 width))
  loops-Covers row column (h, k) =
      items_of-OneOf (range_from 0 height) (range_from 0 width) row column
        (range_from-OneOf 0 height row (omega arith) (omega arith))
        (range_from-OneOf 0 width column (omega arith) (omega arith))
