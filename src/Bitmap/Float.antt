-- ===== src/Bitmap/Float.antt =====
-- The numbers of ft2wrap.h: an `int`, and a `float` with a whole number, which has 24 bits.
use hodgepodge.Prelude.{
  ℕ, zero, suc, ◌+◌, ◌-◌, ◌*◌, ◌/◌, ◌%◌, ◌^◌, ◌<◌, ◌≡◌, refl, ap, ◌∙◌, Bool, true, not, ◌&&◌, ◌||◌,
  ltb, leb, ◌==◌, if◌then◌else◌, ℤ, pos, negsuc, arith,
}

abbrev pub difference : ℕ → ℕ → ℤ
difference m n = if leb n m then pos (m - n) else negsuc (n - m - 1)

abbrev pub add_int : ℤ → ℤ → ℤ
add_int (pos m) (pos n) = pos (m + n)
add_int (pos m) (negsuc n) = difference m (n + 1)
add_int (negsuc m) (pos n) = difference n (m + 1)
add_int (negsuc m) (negsuc n) = negsuc (m + n + 1)

abbrev pub sub_int : ℤ → ℤ → ℤ
sub_int a (pos zero) = a
sub_int a (pos (suc n)) = add_int a (negsuc n)
sub_int a (negsuc n) = add_int a (pos (n + 1))

-- The division of C by 64, which cuts off towards 0.
abbrev pub over_64 : ℤ → ℤ
over_64 (pos n) = pos (n / 64)
over_64 (negsuc n) = sub_int (pos 0) (pos ((n + 1) / 64))

-- How often a number is halved until it is below 2^24.
unfoldable pub halvings : ℕ → ℕ → ℕ
halvings zero n = 0
halvings (suc fuel) n = let rest = halvings fuel (n / 2) in if ltb n (2 ^ 24) then 0 else suc rest

-- The nearest multiple of the unit, the even one of two.
abbrev pub round_at : ℕ → ℕ → ℕ
round_at unit n =
    let q = n / unit in
    let r = n % unit in
    if ltb unit (2 * r) || ((2 * r == unit) && not (q % 2 == 0)) then (q + 1) * unit else q * unit

-- A number of 64 bits as a `float`: 24 bits, the nearest.
unfoldable pub round_nat : ℕ → ℕ
round_nat n = round_at (2 ^ halvings 64 n) n

abbrev pub round_int : ℤ → ℤ
round_int (pos n) = pos (round_nat n)
round_int (negsuc n) = negsuc (round_nat (n + 1) - 1)

-- The sum of two `float`s.
abbrev pub float_add : ℤ → ℤ → ℤ
float_add a b = round_int (add_int a b)

abbrev pub is_int : ℤ → Bool
is_int (pos n) = ltb n (2 ^ 31)
is_int (negsuc n) = ltb n (2 ^ 31)

-- A number that a `float` holds exactly.
abbrev pub Small : ℤ → Type 0
Small (pos n) = n < 2 ^ 24
Small (negsuc n) = n + 1 < 2 ^ 24

halvings_lem : (fuel n : ℕ) → n < 2 ^ 24 → halvings fuel n ≡ 0
unfolding halvings
halvings_lem zero n h = refl
halvings_lem (suc fuel) n h = let first : ltb n (2 ^ 24) ≡ true = ground arith in rw (first) refl

round_at-one : (n : ℕ) → round_at 1 n ≡ n
round_at-one n =
    let whole : n / 1 ≡ n = omega arith in
    let nothing : n % 1 ≡ 0 = omega arith in rw (whole, nothing) (omega arith)

round_nat_lem : (n : ℕ) → n < 2 ^ 24 → round_nat n ≡ n
unfolding round_nat
round_nat_lem n h = rw (halvings_lem 64 n h) (round_at-one n)

pub round_int_lem : (a : ℤ) → Small a → round_int a ≡ a
round_int_lem (pos n) h = ap pos (round_nat_lem n h)
round_int_lem (negsuc n) h = ap negsuc (ap (λ m. m - 1) (round_nat_lem (n + 1) h) ∙ omega arith)

pub Small-is_int : (a : ℤ) → Small a → is_int a ≡ true
Small-is_int (pos n) h = ground arith
Small-is_int (negsuc n) h = ground arith

pub add_int_zero : (x : ℤ) → add_int x (pos 0) ≡ x
add_int_zero (pos n) = ap pos (omega arith)
add_int_zero (negsuc n) = ground arith
