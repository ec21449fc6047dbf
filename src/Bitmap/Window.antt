-- ===== src/Bitmap/Window.antt =====
-- The loops of `my_draw_bitmap`: along one axis they run over the cells of the bitmap that fall into the image.
use hodgepodge.Prelude.{
  ℕ, ◌+◌, ◌-◌, ◌^◌, ◌<◌, ◌≤◌, ◌≡◌, ap, some, ltb, if◌then◌else◌, ℤ, pos, negsuc, int_of_size-small,
  arith, Bool-cases, inl, inr,
}
use mathlib.Core.Option.{some-injective}
use hodgepodge.Bitmap.{add_unsigned, clip_low, first_of, index_of, limit_of}

-- The cell at the offset and the size of the bitmap are in the range of `int`.
abbrev pub NoOverflow : ℤ → ℕ → Type 0
NoOverflow (pos n) size = n + size < 2 ^ 31
NoOverflow (negsuc n) size = (n + 1 < 2 ^ 31) × (size < 2 ^ 31)

-- Where a cell falls in the image.
abbrev pub shift : ℤ → ℕ → ℕ
shift x j = j + clip_low x - first_of x

pub index_of-shift : (x : ℤ) (j : ℕ) → first_of x ≤ j → index_of j x ≡ some (shift x j)
index_of-shift (pos n) j h = ap some (omega arith)
index_of-shift (negsuc n) j h = ground arith

pub index_of-inside : (x : ℤ) (j k : ℕ) → index_of j x ≡ some k → (first_of x ≤ j) × (k ≡ shift x j)
index_of-inside (pos n) j k e = (omega arith, omega (arith, some-injective (j + n) k e))
index_of-inside (negsuc n) j k e = elim (Bool-cases (ltb j (n + 1))) [
  | inl b ↦ cc (rw b at e)
  | inr b ↦ (ground arith, omega (arith, some-injective (j - (n + 1)) k (rw b at e)))
]

add_unsigned_pos : (n size : ℕ) → n + size < 2 ^ 31 → add_unsigned (pos n) size ≡ pos (n + size)
add_unsigned_pos n size h = int_of_size-small (n + size) h

add_unsigned_negsuc :
    (n size : ℕ)
    → n + 1 < 2 ^ 31
    → size < 2 ^ 31
    → add_unsigned (negsuc n) size
      ≡ (if ltb n size then pos (size - (n + 1)) else negsuc (n - size))
add_unsigned_negsuc n size h k = ground arith

-- The loop's bounds are those of the cells.
pub limit_of_lem :
    (x : ℤ) (size limit j : ℕ)
    → NoOverflow x size
    → first_of x ≤ j
    → (j < limit_of x size limit → (j < size) × (shift x j < limit))
      × (j < size → shift x j < limit → j < limit_of x size limit)
limit_of_lem (pos n) size limit j h k = rw (add_unsigned_pos n size h) (ground arith)
limit_of_lem (negsuc n) size limit j (h, h') k = rw (add_unsigned_negsuc n size h h') (ground arith)
