-- ===== src/Tests/Bitmaps.antt =====
-- A glyph of two by two cells at the corner of an image, and the theorem on it.
use hodgepodge.Prelude.{
  false, none, ◌==◌, if◌then◌else◌, ℕ, ◌+◌, ◌*◌, ◌<◌, ◌≡◌, ◌≢◌, refl, List, [], ◌∷◌, some,
  get_elem?, length, replicate, pos, negsuc, arith,
}
use hodgepodge.Bitmap.{Pixel, Image, GlyphBitmap, index_of, draw_bitmap}
use hodgepodge.Bitmap.Float.{halvings, round_nat, float_add}
use hodgepodge.Bitmap.Text.{
  Slot, FreeType, print_loop, print_string, layout, image_of, print_string-layout,
}
use hodgepodge.Bitmap.Drawn.{painted_pixel, alpha, IsDrawable, draw_bitmap_lem}

abbrev small_image : Image
small_image = record { rows = 2; cols = 3; pixels = replicate 6 (0, 0, 0) }

abbrev small_glyph : GlyphBitmap
small_glyph = record {
  rows = 2;
  width = 2;
  pitch = 4;
  buffer = 255 ∷ 128 ∷ 0 ∷ 0 ∷ 0 ∷ 64 ∷ 0 ∷ 0 ∷ [];
}

abbrev red : Pixel
red = (0, 0, 255)

drawn_at_corner :
    draw_bitmap small_image small_glyph (negsuc 0) (pos 0) red
    ≡ some ((0, 0, 127) ∷ (0, 0, 0) ∷ (0, 0, 0) ∷ (0, 0, 63) ∷ (0, 0, 0) ∷ (0, 0, 0) ∷ [])
unfolding draw_bitmap
drawn_at_corner = refl

-- An opaque cell does not give the colour.
opaque_is_darker :
    draw_bitmap small_image small_glyph (pos 2) (pos 1) red
    ≡ some ((0, 0, 0) ∷ (0, 0, 0) ∷ (0, 0, 0) ∷ (0, 0, 0) ∷ (0, 0, 0) ∷ (0, 0, 254) ∷ [])
unfolding draw_bitmap
opaque_is_darker = refl

small-IsDrawable : IsDrawable small_image small_glyph (negsuc 0) (pos 0)
small-IsDrawable = record {
  image_size = refl;
  bitmap_size = omega arith;
  wide_pitch = omega arith;
  x_range = (omega arith, omega arith);
  y_range = omega arith;
}

draw_bitmap_lem_example :
    (pixels : List Pixel) × (draw_bitmap small_image small_glyph (negsuc 0) (pos 0) red
      ≡ some pixels)
    × (length pixels ≡ 6)
    × ((i j row column : ℕ) (p : Pixel)
        → i < 2
        → j < 2
        → index_of i (pos 0) ≡ some row
        → index_of j (negsuc 0) ≡ some column
        → row < 2
        → column < 3
        → get_elem? small_image.pixels (row * 3 + column) ≡ some p
        → get_elem? pixels (row * 3 + column)
          ≡ some (painted_pixel (alpha small_glyph (i, j)) red p))
    × ((row column : ℕ)
        → column < 3
        → ((i j : ℕ)
            → i < 2
            → j < 2
            → index_of i (pos 0) ≡ some row
            → index_of j (negsuc 0) ≢ some column)
        → get_elem? pixels (row * 3 + column) ≡ get_elem? small_image.pixels (row * 3 + column))
draw_bitmap_lem_example =
    draw_bitmap_lem small_image small_glyph (negsuc 0) (pos 0) red small-IsDrawable

abbrev glyph_of : ℕ → Slot
glyph_of ch = record { advance = pos 128; left = pos 0; top = pos 1; bitmap = small_glyph }

-- A font in which every character has the same glyph, but the space none.
abbrev font : FreeType
font = record {
  has_kerning = false;
  char_index = λ ch. if ch == 32 then 0 else 1;
  load_glyph = λ glyph slot. (false, glyph_of glyph);
  render_glyph = λ slot. (false, slot);
  kerning = λ previous glyph. none;
}

abbrev wide_image : Image
wide_image = record { rows = 2; cols = 5; pixels = replicate 10 (0, 0, 0) }

print_string-layout_example :
    image_of font
      (pos 1)
      red
      (print_string font (pos 1) red wide_image (glyph_of 0) (65 ∷ 66 ∷ []) (pos 0))
    ≡ layout font (pos 1) red glyph_of (65 ∷ 66 ∷ []) (pos 0) wide_image
print_string-layout_example =
    print_string-layout font (pos 1) red glyph_of wide_image (glyph_of 0) (65 ∷ 66 ∷ []) (pos 0)
      refl
      ((refl, λ slot. (glyph_of 1, refl, refl)), ((refl, λ slot. (glyph_of 1, refl, refl)), tt))
      (
        omega arith,
        omega arith,
        omega arith,
        refl,
        omega arith,
        (omega arith, omega arith, omega arith, refl, omega arith, omega arith),
      )

-- After a character that has no glyph, the first that has one is moved by the advance that the slot held.
moved_by_old_slot :
    image_of font
      (pos 1)
      red
      (print_string font (pos 1) red wide_image (glyph_of 0) (32 ∷ 66 ∷ []) (pos 0))
    ≡ layout font (pos 1) red glyph_of (66 ∷ []) (pos 2) wide_image
unfolding print_loop draw_bitmap round_nat halvings
moved_by_old_slot = refl

-- Above 2^24 a `float` misses a number: the sum is the nearest that it has, the even one of two.
float_rounds : float_add (pos 16777216) (pos 1) ≡ pos 16777216
unfolding round_nat halvings
float_rounds = refl

float_rounds_up : float_add (negsuc 16777217) (negsuc 0) ≡ negsuc 16777219
unfolding round_nat halvings
float_rounds_up = refl
