-- ===== src/Bitmap/Text.antt =====
-- ft2wrap.h: `printString`, which draws a line of text, with the FreeType library as a parameter. The `float`
-- variables hold whole numbers, which every operation rounds to 24 bits.
use hodgepodge.Prelude.{
  ℕ, zero, suc, ◌≡◌, refl, ap, ◌∙◌, sym, Bool, true, false, not, ◌&&◌, List, [], ◌∷◌, Option, none,
  some, ltb, ◌==◌, if◌then◌else◌, ◌>>=◌, ℤ, pos, All, arith,
}
use hodgepodge.Bitmap.Float.{
  add_int, sub_int, over_64, round_nat, round_int, float_add, is_int, Small, round_int_lem,
  Small-is_int, add_int_zero,
}
use hodgepodge.Bitmap.{Pixel, Image, GlyphBitmap, draw_bitmap}

-- The slot of a face.
pub record Slot : Type 0 where
  pub advance : ℤ
  pub left : ℤ
  pub top : ℤ
  pub bitmap : GlyphBitmap

-- What the library does with a face: a result `true` is an error, and the slot changes in either case. The
-- kerning has an error or the value `delta.x`.
pub record FreeType : Type 0 where
  pub has_kerning : Bool
  pub char_index : ℕ → ℕ
  pub load_glyph : ℕ → Slot → Bool × Slot
  pub render_glyph : Slot → Bool × Slot
  pub kerning : ℕ → ℕ → Option ℤ

-- The local variables of `printString`, the slot and the image.
pub record Pen : Type 0 where
  pub posx : ℤ
  pub dx : ℤ
  pub previous : ℕ
  pub dy_max : ℕ
  pub slot : Slot
  pub img : Image

abbrev pub with_pixels : Image → List Pixel → Image
with_pixels img pixels = record { rows = img.rows; cols = img.cols; pixels = pixels }

abbrev with_slot : Slot → Pen → Pen
with_slot slot p = record {
  posx = p.posx;
  dx = p.dx;
  previous = p.previous;
  dy_max = p.dy_max;
  slot = slot;
  img = p.img;
}

abbrev with_dx : ℤ → Pen → Pen
with_dx dx p = record {
  posx = p.posx;
  dx = dx;
  previous = p.previous;
  dy_max = p.dy_max;
  slot = p.slot;
  img = p.img;
}

-- The call of `my_draw_bitmap` with whole positions.
abbrev pub draw_at : Image → Slot → ℤ → ℤ → Pixel → Option Image
draw_at img slot x y color =
    draw_bitmap img slot.bitmap x y color >>= λ pixels. some (with_pixels img pixels)

-- `my_draw_bitmap(img, &slot->bitmap, posx + slot->bitmap_left, peny - slot->bitmap_top, color)`; what does
-- not fit an `int` has no result.
abbrev pub draw_glyph : Image → Slot → ℤ → ℤ → Pixel → Option Image
draw_glyph img slot posx peny color =
    let x = float_add posx (round_int slot.left) in
    let y = sub_int peny slot.top in
    if is_int x && is_int y then draw_at img slot x y color else none

module _ (ft : FreeType) (peny : ℤ) (color : Pixel) where
  abbrev kern : Option ℤ → ℤ → ℤ
  kern none x = x
  kern (some delta) x = float_add x (round_int (over_64 delta))

  -- The kerning, where there is a glyph before this one.
  abbrev kerned : ℕ → ℕ → ℤ → ℤ
  kerned previous glyph x =
      if ft.has_kerning && not (previous == 0) then kern (ft.kerning previous glyph) x else x

  -- The part of the loop after the glyph is rendered.
  abbrev draw_char : ℕ → Pen → Option Pen
  draw_char glyph p =
      let x = float_add (kerned p.previous glyph p.posx) p.dx in
      let rows = round_nat p.slot.bitmap.rows in
      draw_glyph p.img p.slot x peny color >>= λ img. some (record {
        posx = x;
        dx = p.dx;
        previous = glyph;
        dy_max = if ltb p.dy_max rows then rows else p.dy_max;
        slot = p.slot;
        img = img;
      })

  abbrev rendered : ℕ → Pen → Bool × Slot → Option Pen
  rendered glyph p (true, slot) = some (with_slot slot p)
  rendered glyph p (false, slot) = draw_char glyph (with_slot slot p)

  abbrev loaded : ℕ → Pen → Bool × Slot → Option Pen
  loaded glyph p (true, slot) = some (with_slot slot p)
  loaded glyph p (false, slot) = rendered glyph p (ft.render_glyph slot)

  -- One round of the loop.
  abbrev pub print_char : ℕ → ℕ → Pen → Option Pen
  print_char k ch p =
      let glyph = ft.char_index ch in
      let p' = if k == 0 then p else with_dx (round_int (over_64 p.slot.advance)) p in
      if glyph == 0 then some p else loaded glyph p' (ft.load_glyph glyph p.slot)

  unfoldable pub print_loop : ℕ → List ℕ → Pen → Option Pen
  print_loop k [] p = some p
  print_loop k (ch ∷ chars) p = print_char k ch p >>= print_loop (suc k) chars

  abbrev pub print_string : Image → Slot → List ℕ → ℤ → Option Pen
  print_string img slot chars penx = print_loop 0 chars (record {
    posx = round_int penx;
    dx = pos 0;
    previous = 0;
    dy_max = 0;
    slot = slot;
    img = img;
  })

module _ (ft : FreeType) (peny : ℤ) (color : Pixel) where
  -- The layout of a text: each glyph stands where the one before it ends.
  abbrev pub layout : (ℕ → Slot) → List ℕ → ℤ → Image → Option Image
  layout glyph_of [] x img = some img
  layout glyph_of (ch ∷ chars) x img =
      draw_at img (glyph_of ch) (add_int x (glyph_of ch).left) (sub_int peny (glyph_of ch).top)
        color
      >>= layout glyph_of chars (add_int x (over_64 (glyph_of ch).advance))

  -- The font has the character: the slot is the glyph's after it is loaded and rendered, whatever was in it.
  abbrev pub HasGlyph : (ℕ → Slot) → ℕ → Type 0
  HasGlyph glyph_of ch =
      ((ft.char_index ch == 0) ≡ false)
      × ((slot : Slot)
          → (raw : Slot) × (ft.load_glyph (ft.char_index ch) slot ≡ (false, raw))
            × (ft.render_glyph raw ≡ (false, glyph_of ch)))

  -- A `float` holds each position of the layout, each advance and each offset, and an `int` each height.
  abbrev pub Placed : (ℕ → Slot) → List ℕ → ℤ → Type 0
  Placed glyph_of [] x = Small x
  Placed glyph_of (ch ∷ chars) x =
      Small x
      × Small (glyph_of ch).left
      × Small (add_int x (glyph_of ch).left)
      × (is_int (sub_int peny (glyph_of ch).top) ≡ true)
      × Small (over_64 (glyph_of ch).advance)
      × Placed glyph_of chars (add_int x (over_64 (glyph_of ch).advance))

  Placed-Small : (glyph_of : ℕ → Slot) (chars : List ℕ) (x : ℤ) → Placed glyph_of chars x → Small x
  Placed-Small glyph_of [] x h = h
  Placed-Small glyph_of (ch ∷ chars) x h = h.0

  abbrev pub image_of : Option Pen → Option Image
  image_of none = none
  image_of (some p) = some p.img

  -- The pen after a glyph.
  abbrev moved : ℕ → Slot → ℤ → Pen → Image → Pen
  moved glyph slot x p img = record {
    posx = x;
    dx = p.dx;
    previous = glyph;
    dy_max = let rows = round_nat slot.bitmap.rows in if ltb p.dy_max rows then rows else p.dy_max;
    slot = slot;
    img = img;
  }

  draw_glyph_lem :
      (img : Image) (slot : Slot) (x : ℤ)
      → Small slot.left
      → Small (add_int x slot.left)
      → is_int (sub_int peny slot.top) ≡ true
      → draw_glyph img slot x peny color
        ≡ draw_at img slot (add_int x slot.left) (sub_int peny slot.top) color
  draw_glyph_lem img slot x h h' height =
      rw
        (
          round_int_lem slot.left h,
          round_int_lem (add_int x slot.left) h',
          Small-is_int (add_int x slot.left) h',
          height,
        )
        refl

  loaded_lem :
      (glyph_of : ℕ → Slot) (ch : ℕ) (chars : List ℕ) (slot : Slot) (p : Pen) (x : ℤ)
      → ft.has_kerning ≡ false
      → HasGlyph glyph_of ch
      → Placed glyph_of (ch ∷ chars) x
      → float_add p.posx p.dx ≡ x
      → loaded ft peny color (ft.char_index ch) p (ft.load_glyph (ft.char_index ch) slot) ≡ (
          draw_at p.img
            (glyph_of ch)
            (add_int x (glyph_of ch).left)
            (sub_int peny (glyph_of ch).top)
            color
          >>= λ img. some (moved (ft.char_index ch) (glyph_of ch) x p img))
  loaded_lem glyph_of ch chars slot p x none_kerned (defined, loads)
        (h, left, offset, height, advance, more) start =
      let (raw, e, e') = loads slot in
      rw (e, e', none_kerned, start, draw_glyph_lem p.img (glyph_of ch) x left offset height) refl

  after_glyph :
      (o : Option Image) (pen : Image → Pen) (loop : Pen → Option Pen) (rest : Image → Option Image)
      → ((img : Image) → image_of (loop (pen img)) ≡ rest img)
      → image_of (o >>= (λ img. some (pen img)) >>= loop) ≡ (o >>= rest)
  after_glyph none pen loop rest h = refl
  after_glyph (some img) pen loop rest h = h img

  -- Where the next glyph stands.
  abbrev next_x : ℕ → Pen → ℤ
  next_x k p = float_add p.posx (if k == 0 then p.dx else round_int (over_64 p.slot.advance))

  next_x_lem :
      (x advance : ℤ)
      → Small advance
      → Small (add_int x advance)
      → float_add x (round_int advance) ≡ add_int x advance
  next_x_lem x advance h h' = rw (round_int_lem advance h) (round_int_lem (add_int x advance) h')

  print_loop_lem :
      (glyph_of : ℕ → Slot) (k : ℕ) (chars : List ℕ) (p : Pen) (x : ℤ)
      → ft.has_kerning ≡ false
      → All (HasGlyph glyph_of) chars
      → Placed glyph_of chars x
      → next_x k p ≡ x
      → image_of (print_loop ft peny color k chars p) ≡ layout glyph_of chars x p.img
  unfolding print_loop
  print_loop_lem glyph_of k [] p x none_kerned h placed start = refl
  print_loop_lem glyph_of zero (ch ∷ chars) p x none_kerned (h, hs) placed start =
      let after = moved (ft.char_index ch) (glyph_of ch) x p in
      let (_, _, _, _, small, more) = placed in
      rw (h.0, loaded_lem glyph_of ch chars p.slot p x none_kerned h placed start)
        (after_glyph
          (draw_at p.img (glyph_of ch) (add_int x (glyph_of ch).left)
            (sub_int peny (glyph_of ch).top) color)
          after (print_loop ft peny color 1 chars)
          (layout glyph_of chars (add_int x (over_64 (glyph_of ch).advance)))
          (λ img.
            print_loop_lem glyph_of 1 chars (after img) (add_int x (over_64 (glyph_of ch).advance))
              none_kerned hs more
              (next_x_lem x (over_64 (glyph_of ch).advance) small
                (Placed-Small glyph_of chars (add_int x (over_64 (glyph_of ch).advance)) more))))
  print_loop_lem glyph_of (suc k) (ch ∷ chars) p x none_kerned (h, hs) placed start =
      let first : (suc k == 0) ≡ false = ground arith in
      let second : (suc (suc k) == 0) ≡ false = ground arith in
      let q = with_dx (round_int (over_64 p.slot.advance)) p in
      let after = moved (ft.char_index ch) (glyph_of ch) x q in
      let here = ap (λ b. float_add p.posx (if b then p.dx else q.dx)) (sym first) ∙ start in
      let (_, _, _, _, small, more) = placed in
      let next = add_int x (over_64 (glyph_of ch).advance) in
      rw (first, h.0, loaded_lem glyph_of ch chars p.slot q x none_kerned h placed here)
        (after_glyph
          (draw_at p.img (glyph_of ch) (add_int x (glyph_of ch).left)
            (sub_int peny (glyph_of ch).top) color)
          after (print_loop ft peny color (suc (suc k)) chars) (layout glyph_of chars next)
          (λ img. print_loop_lem glyph_of (suc (suc k)) chars (after img) next none_kerned hs more (
            ap (λ b. float_add x (if b then q.dx else round_int (over_64 (glyph_of ch).advance)))
              second
            ∙ next_x_lem x (over_64 (glyph_of ch).advance) small
                (Placed-Small glyph_of chars next more))))

  -- Where the font has every character of a text and no kerning, a `float` holds each position of the layout, each
  -- advance and each offset exactly (all are below 2^24), and each height fits an `int`, `printString` draws the
  -- layout of the text from `penx` on, each glyph where the one before it ends, whatever the slot held before.
  pub print_string-layout :
      (glyph_of : ℕ → Slot) (img : Image) (slot : Slot) (chars : List ℕ) (penx : ℤ)
      → ft.has_kerning ≡ false
      → All (HasGlyph glyph_of) chars
      → Placed glyph_of chars penx
      → image_of (print_string ft peny color img slot chars penx) ≡ layout glyph_of chars penx img
  print_string-layout glyph_of img slot chars penx none_kerned h placed =
      let small = Placed-Small glyph_of chars penx placed in
      let start : float_add (round_int penx) (pos 0) ≡ penx =
        ap round_int (add_int_zero (round_int penx))
        ∙ ap round_int (round_int_lem penx small)
        ∙ round_int_lem penx small in
      print_loop_lem glyph_of 0 chars
        (record {
          posx = round_int penx;
          dx = pos 0;
          previous = 0;
          dy_max = 0;
          slot = slot;
          img = img;
        })
        penx none_kerned h placed start
