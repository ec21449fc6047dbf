-- ===== src/Bitmap.antt =====
-- ft2wrap.h: `my_draw_bitmap`, which blends the bitmap of a glyph into an image. The pixels of an image are
-- stored row by row; the pitch of a bitmap and the colour are not negative.
pub mod Paint
pub mod Window
pub mod Rows
pub mod Drawn
pub mod Float
pub mod Text
use hodgepodge.Prelude.{
  ℕ, zero, suc, ◌+◌, ◌-◌, ◌*◌, ◌/◌, ◌%◌, ◌^◌, Bool, List, [], ◌∷◌, Option, none, some, ltb, leb,
  ◌==◌, if◌then◌else◌, length, get_elem?, set, range_from, ◌>>=◌, ℤ, pos, negsuc, size_of_int,
  int_of_size,
}
use hodgepodge.Gemm.{for_each, store}

-- A `Vec3b`, or the colour.
abbrev pub Pixel : Type 0
Pixel = ℕ × ℕ × ℕ

-- The `Mat`.
pub record Image : Type 0 where
  pub rows : ℕ
  pub cols : ℕ
  pub pixels : List Pixel

-- The `FT_Bitmap`.
pub record GlyphBitmap : Type 0 where
  pub rows : ℕ
  pub width : ℕ
  pub pitch : ℕ
  pub buffer : List ℕ

-- `x + bitmap->width`: the sum is `unsigned`, and goes back to an `int`.
abbrev pub add_unsigned : ℤ → ℕ → ℤ
add_unsigned x n = int_of_size (size_of_int x + n)

-- `if(x0 < 0) x0 = 0`.
abbrev pub clip_low : ℤ → ℕ
clip_low (pos n) = n
clip_low (negsuc n) = 0

-- `if(x1 > img.cols) x1 = img.cols`.
abbrev pub clip_high : ℤ → ℕ → ℤ
clip_high (pos n) limit = if ltb limit n then pos limit else pos n
clip_high (negsuc n) limit = negsuc n

-- `x0 - x`, with the clipped x0, and `x1 - x`; a result below 0 ends the loop as 0 does.
abbrev pub first_of : ℤ → ℕ
first_of (pos n) = 0
first_of (negsuc n) = n + 1

abbrev pub last_of : ℤ → ℤ → ℕ
last_of (pos m) (pos n) = m - n
last_of (pos m) (negsuc n) = m + (n + 1)
last_of (negsuc m) (pos n) = 0
last_of (negsuc m) (negsuc n) = n - m

-- `i + y`, as an index into the image.
abbrev pub index_of : ℕ → ℤ → Option ℕ
index_of i (pos n) = some (i + n)
index_of i (negsuc n) = if ltb i (n + 1) then none else some (i - (n + 1))

-- The blend of one channel, which is stored in a byte.
abbrev pub blend : ℕ → ℕ → ℕ → ℕ
blend val c src = (src * (255 - val) + c * val) / 256 % 256

abbrev pub blend_pixel : ℕ → Pixel → Pixel → Pixel
blend_pixel val c src = (blend val c.0 src.0, blend val c.1 src.1, blend val c.2 src.2)

-- The body of the inner loop.
abbrev pub draw_value : ℕ → ℕ → Pixel → Option ℕ → Option ℕ → List Pixel → Option (List Pixel)
draw_value cols val color (some row) (some column) pixels =
    if ltb column cols
    then (get_elem? pixels (row * cols + column) >>= λ src.
        store pixels (row * cols + column) (blend_pixel val color src))
    else none
draw_value cols val color row column pixels = none

abbrev pub draw_pixel : ℕ → GlyphBitmap → ℤ → ℤ → Pixel → ℕ × ℕ → List Pixel → Option (List Pixel)
draw_pixel cols bitmap x y color (i, j) pixels =
    get_elem? bitmap.buffer (i * bitmap.pitch + j) >>= λ val.
    if val == 0 then some pixels else draw_value cols val color (index_of i y) (index_of j x) pixels

abbrev pub limit_of : ℤ → ℕ → ℕ → ℕ
limit_of x size limit = last_of (clip_high (add_unsigned x size) limit) x

-- The values of a loop variable.
abbrev pub window : ℤ → ℕ → ℕ → List ℕ
window x size limit = range_from (first_of x) (limit_of x size limit - first_of x)

unfoldable pub draw_bitmap : Image → GlyphBitmap → ℤ → ℤ → Pixel → Option (List Pixel)
unfolding for_each
draw_bitmap img bitmap x y color =
    for_each (window y bitmap.rows img.rows)
      (λ i.
        for_each (window x bitmap.width img.cols)
          (λ j. draw_pixel img.cols bitmap x y color (i, j)))
      img.pixels
