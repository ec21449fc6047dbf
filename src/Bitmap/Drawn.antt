-- ===== src/Bitmap/Drawn.antt =====
-- `my_draw_bitmap` against what it is for: each cell of the bitmap that falls into the image is blended once.
use hodgepodge.Prelude.{
  ℕ, zero, suc, ◌+◌, ◌-◌, ◌*◌, ◌<◌, ◌≤◌, ◌≡◌, ◌≢◌, refl, sym, ap, ap₂, ◌∙◌, List, [], ◌∷◌, Option,
  none, some, length, get_elem?, get_elem?-some, set, All, All-imp, arith, Bool-cases, inl, inr,
  ◌>>=◌, ◌==◌, lt→ltb, if◌then◌else◌, ℤ, subst,
}
use native.Mathlib.Nat.{mul_comm}
use mathlib.Core.Option.{some-injective}
use hodgepodge.Gemm.Grid.{OneOf, All-OneOf, index_in_range, index_same}
use hodgepodge.Gemm.Order.{
  items_of, for_each-nested, All-items_of, items_of-OneOf, range_from-OneOf, range_from-bounds,
}
use hodgepodge.Bitmap.{
  Pixel, Image, GlyphBitmap, first_of, limit_of, index_of, blend_pixel, draw_value, draw_pixel,
  window, draw_bitmap,
}
use hodgepodge.Bitmap.Paint.{Paints, Painted, for_each-Painted}
use hodgepodge.Bitmap.Window.{NoOverflow, shift, index_of-shift, index_of-inside, limit_of_lem}
use hodgepodge.Bitmap.Rows.{place_of, rows-Rising}

-- What becomes of a pixel under a cell: nothing where the cell is empty.
abbrev pub painted_pixel : Option ℕ → Pixel → Pixel → Pixel
painted_pixel none color p = p
painted_pixel (some val) color p = if val == 0 then p else blend_pixel val color p

abbrev pub alpha : GlyphBitmap → ℕ × ℕ → Option ℕ
alpha bitmap (i, j) = get_elem? bitmap.buffer (i * bitmap.pitch + j)

set-get_elem? : (c : List Pixel) (i : ℕ) (p : Pixel) → get_elem? c i ≡ some p → set c i p ≡ c
set-get_elem? [] i p e = refl
set-get_elem? (x ∷ c) zero p e = ap (λ y. y ∷ c) (sym (some-injective x p e))
set-get_elem? (x ∷ c) (suc i) p e = ap (◌∷◌ x) (set-get_elem? c i p e)

get_elem?-inside : (c : List Pixel) (i : ℕ) (p : Pixel) → get_elem? c i ≡ some p → i < length c
get_elem?-inside [] i p e = cc
get_elem?-inside (x ∷ c) zero p e = omega arith
get_elem?-inside (x ∷ c) (suc i) p e = omega (arith, get_elem?-inside c i p e)

draw_value-some :
    (cols val : ℕ) (color : Pixel) (row column : ℕ) (c : List Pixel) (p : Pixel)
    → column < cols
    → get_elem? c (row * cols + column) ≡ some p
    → draw_value cols val color (some row) (some column) c
      ≡ some (set c (row * cols + column) (blend_pixel val color p))
draw_value-some cols val color row column c p h e =
    let inside = get_elem?-inside c (row * cols + column) p e in
    rw (lt→ltb column cols h, e, ◌>>=◌, lt→ltb (row * cols + column) (length c) inside) refl

-- The image has its pixels, the bitmap its cells, and the glyph's box is in the range of `int`.
pub record IsDrawable (img : Image) (bitmap : GlyphBitmap) (x y : ℤ) : Type 0 where
  pub image_size : length img.pixels ≡ img.rows * img.cols
  pub bitmap_size : bitmap.rows * bitmap.pitch ≤ length bitmap.buffer
  pub wide_pitch : bitmap.width ≤ bitmap.pitch
  pub x_range : NoOverflow x bitmap.width
  pub y_range : NoOverflow y bitmap.rows

-- A cell on one axis that the loop comes to.
abbrev Seen : ℤ → ℕ → ℕ → ℕ → Type 0
Seen x size limit j = (first_of x ≤ j) × (j < size) × (shift x j < limit)

window-Seen :
    (x : ℤ) (size limit : ℕ) → NoOverflow x size → All (Seen x size limit) (window x size limit)
window-Seen x size limit h =
    All-imp (λ j. (first_of x ≤ j) × (j < first_of x + (limit_of x size limit - first_of x)))
      (Seen x size limit)
      (λ j k.
        let (l, m) = (limit_of_lem x size limit j h k.0).0 (omega (arith, k.0, k.1)) in (k.0, l, m))
      (window x size limit) (range_from-bounds (first_of x) (limit_of x size limit - first_of x))

window-OneOf :
    (x : ℤ) (size limit j : ℕ)
    → NoOverflow x size
    → Seen x size limit j
    → OneOf j (window x size limit)
window-OneOf x size limit j h (k, l, m) =
    range_from-OneOf (first_of x) (limit_of x size limit - first_of x) j k
      (omega (arith, (limit_of_lem x size limit j h k).1 l m))

shift-rises : (x : ℤ) (j j' : ℕ) → first_of x ≤ j → j < j' → shift x j < shift x j'
shift-rises x j j' h k = omega arith

module _ (img : Image) (bitmap : GlyphBitmap) (x y : ℤ) (color : Pixel)
    (d : IsDrawable img bitmap x y) where
  abbrev place : ℕ × ℕ → ℕ
  place = place_of (shift y) (shift x) img.cols

  abbrev paint : ℕ × ℕ → Pixel → Pixel
  paint item p = painted_pixel (alpha bitmap item) color p

  abbrev cells : List (ℕ × ℕ)
  cells = items_of (window y bitmap.rows img.rows) (window x bitmap.width img.cols)

  paints :
      (i j : ℕ)
      → Seen y bitmap.rows img.rows i
      → Seen x bitmap.width img.cols j
      → Paints place paint (draw_pixel img.cols bitmap x y color) (i, j)
  paints i j (h, k, l) (h', k', l') c p e =
      let inside : i * bitmap.pitch + j < length bitmap.buffer = omega (
        arith,
        index_in_range bitmap.pitch bitmap.rows j i (omega (arith, d.wide_pitch, k')) k,
        d.bitmap_size,
        mul_comm bitmap.rows bitmap.pitch,
      ) in
      let (val, found) = get_elem?-some bitmap.buffer (i * bitmap.pitch + j) inside in
      elim (Bool-cases (val == 0)) [
        | inl z ↦
            rw (found, ◌>>=◌, z)
              (ap some (sym (set-get_elem? c (shift y i * img.cols + shift x j) p e)))
        | inr z ↦
            rw (found, ◌>>=◌, z, index_of-shift y i h, index_of-shift x j h')
              (draw_value-some img.cols val color (shift y i) (shift x j) c p l' e)
      ]

  cells-Painted :
      (c' : List Pixel) × (draw_bitmap img bitmap x y color ≡ some c')
      × Painted place paint cells img.pixels c'
  unfolding draw_bitmap
  cells-Painted =
      let rows = window-Seen y bitmap.rows img.rows d.y_range in
      let columns = window-Seen x bitmap.width img.cols d.x_range in
      let (c', e, s) =
        for_each-Painted place paint (draw_pixel img.cols bitmap x y color) cells img.pixels
          (All-items_of _ (Seen y bitmap.rows img.rows) (Seen x bitmap.width img.cols) paints _ _
            rows columns)
          (rows-Rising paint (shift y) (shift x) img.cols (first_of y) (first_of x) (shift-rises y)
            (shift-rises x) (first_of y) (limit_of y bitmap.rows img.rows - first_of y) (first_of x)
            (limit_of x bitmap.width img.cols - first_of x) (omega arith) (omega arith)
            (All-imp (Seen x bitmap.width img.cols) (λ j. shift x j < img.cols) (λ j h. h.2) _
              columns))
          (All-items_of (λ item. place item < length img.pixels) (Seen y bitmap.rows img.rows)
            (Seen x bitmap.width img.cols)
            (λ i j h k. omega (
              arith,
              d.image_size,
              index_in_range img.cols img.rows (shift x j) (shift y i) k.2 h.2,
              mul_comm img.rows img.cols,
            ))
            _ _ rows columns) in
      (
        c',
        for_each-nested (window y bitmap.rows img.rows) (window x bitmap.width img.cols)
              (draw_pixel img.cols bitmap x y color) img.pixels
            ∙ e,
        s,
      )

  drawn :
      (c' : List Pixel)
      → Painted place paint cells img.pixels c'
      → (i j row column : ℕ) (p : Pixel) → i < bitmap.rows
      → j < bitmap.width
      → index_of i y ≡ some row
      → index_of j x ≡ some column
      → row < img.rows
      → column < img.cols
      → get_elem? img.pixels (row * img.cols + column) ≡ some p
      → get_elem? c' (row * img.cols + column) ≡ some (painted_pixel (alpha bitmap (i, j)) color p)
  drawn c' s i j row column p hi hj er ec hr hc e =
      let (fy, ry) = index_of-inside y i row er in
      let (fx, rx) = index_of-inside x j column ec in
      let at : row * img.cols + column ≡ place (i, j) = ap₂ (λ a b. a * img.cols + b) ry rx in
      let seen =
        items_of-OneOf (window y bitmap.rows img.rows) (window x bitmap.width img.cols) i j
          (window-OneOf y bitmap.rows img.rows i d.y_range
            (fy, hi, subst (λ z. z < img.rows) ry hr))
          (window-OneOf x bitmap.width img.cols j d.x_range
            (fx, hj, subst (λ z. z < img.cols) rx hc)) in
      subst (λ z. get_elem? c' z ≡ some (paint (i, j) p)) (sym at)
        (All-OneOf
          (λ item.
            (q : Pixel)
            → get_elem? img.pixels (place item) ≡ some q
            → get_elem? c' (place item) ≡ some (paint item q))
          (i, j) cells s.painted seen p (subst (λ z. get_elem? img.pixels z ≡ some p) at e))

  kept :
      (c' : List Pixel)
      → Painted place paint cells img.pixels c'
      → (row column : ℕ) → column < img.cols
      → ((i j : ℕ)
          → i < bitmap.rows
          → j < bitmap.width
          → index_of i y ≡ some row
          → index_of j x ≢ some column)
      → get_elem? c' (row * img.cols + column) ≡ get_elem? img.pixels (row * img.cols + column)
  kept c' s row column h none_there = s.elsewhere (row * img.cols + column) (
      All-items_of (λ item. place item ≢ row * img.cols + column) (Seen y bitmap.rows img.rows)
        (Seen x bitmap.width img.cols)
        (λ i j u v same.
          let (p, q) = index_same img.cols (shift x j) (shift y i) column row v.2 h same in
          none_there i j u.1 v.1 (index_of-shift y i u.0 ∙ ap some q)
            (index_of-shift x j v.0 ∙ ap some p))
        (window y bitmap.rows img.rows) (window x bitmap.width img.cols)
        (window-Seen y bitmap.rows img.rows d.y_range)
        (window-Seen x bitmap.width img.cols d.x_range))

  -- `my_draw_bitmap` never leaves the image or the bitmap, and keeps the size of the image. Where cell (i, j)
  -- of the bitmap falls on a pixel of the image, in row `y + i` and column `x + j`, that pixel is blended with
  -- the colour, once, by the value of the cell, and kept where the value is 0. A pixel on which no cell falls
  -- is kept.
  pub draw_bitmap_lem :
      (pixels : List Pixel) × (draw_bitmap img bitmap x y color ≡ some pixels)
      × (length pixels ≡ length img.pixels)
      × ((i j row column : ℕ) (p : Pixel)
          → i < bitmap.rows
          → j < bitmap.width
          → index_of i y ≡ some row
          → index_of j x ≡ some column
          → row < img.rows
          → column < img.cols
          → get_elem? img.pixels (row * img.cols + column) ≡ some p
          → get_elem? pixels (row * img.cols + column)
            ≡ some (painted_pixel (alpha bitmap (i, j)) color p))
      × ((row column : ℕ)
          → column < img.cols
          → ((i j : ℕ)
              → i < bitmap.rows
              → j < bitmap.width
              → index_of i y ≡ some row
              → index_of j x ≢ some column)
          → get_elem? pixels (row * img.cols + column)
            ≡ get_elem? img.pixels (row * img.cols + column))
  draw_bitmap_lem = let (c', e, s) = cells-Painted in (c', e, s.same_length, drawn c' s, kept c' s)
