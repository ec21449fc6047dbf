-- ===== src/Reverse/Windows.antt =====
-- The bytes between two offsets of the buffer, when some are taken from the front.
use hodgepodge.Prelude.{
  ℕ, zero, suc, ◌+◌, ◌-◌, ◌≤◌, ◌≡◌, inl, inr, refl, sym, ap, ◌∙◌, List, [], ◌∷◌, take, drop, arith,
  Bool-cases, ltb,
}
use hodgepodge.Reverse.{at_most}

take_nil : (n : ℕ) → take {A = ℕ} n [] ≡ []
take_nil zero = refl
take_nil (suc n) = refl

drop_nil : (n : ℕ) → drop {A = ℕ} n [] ≡ []
drop_nil zero = refl
drop_nil (suc n) = refl

take_none : (n : ℕ) (xs : List ℕ) → n ≡ 0 → take n xs ≡ []
take_none n xs e = ap (λ k. take k xs) e

take-take_le : (m n : ℕ) (xs : List ℕ) → m ≤ n → take m (take n xs) ≡ take m xs
take-take_le zero n xs h = refl
take-take_le (suc m) zero xs h = absurd (omega arith)
take-take_le (suc m) (suc n) [] h = refl
take-take_le (suc m) (suc n) (x ∷ xs) h = ap (◌∷◌ x) (take-take_le m n xs (omega arith))

take-take_ge : (m n : ℕ) (xs : List ℕ) → n ≤ m → take m (take n xs) ≡ take n xs
take-take_ge m zero xs h = take_nil m
take-take_ge zero (suc n) xs h = absurd (omega arith)
take-take_ge (suc m) (suc n) [] h = refl
take-take_ge (suc m) (suc n) (x ∷ xs) h = ap (◌∷◌ x) (take-take_ge m n xs (omega arith))

drop-take : (m n : ℕ) (xs : List ℕ) → drop m (take n xs) ≡ take (n - m) (drop m xs)
drop-take zero n xs = let p : n ≡ n - 0 = omega arith in ap (λ k. take k xs) p
drop-take (suc m) zero xs = sym (take_none (0 - suc m) (drop (suc m) xs) (omega arith))
drop-take (suc m) (suc n) [] = sym (take_nil (suc n - suc m))
drop-take (suc m) (suc n) (x ∷ xs) =
    let p : n - m ≡ suc n - suc m = omega arith in drop-take m n xs ∙ ap (λ k. take k (drop m xs)) p

pub drop-drop : (m n : ℕ) (xs : List ℕ) → drop (m + n) xs ≡ drop n (drop m xs)
drop-drop zero n xs = let p : 0 + n ≡ n = omega arith in ap (λ k. drop k xs) p
drop-drop (suc m) n [] = drop_nil (suc m + n) ∙ sym (drop_nil n)
drop-drop (suc m) n (x ∷ xs) =
    let p : suc m + n ≡ suc (m + n) = omega arith in ap (λ k. drop k (x ∷ xs)) p ∙ drop-drop m n xs

-- What a read of the size takes of m bytes, and what it leaves.
pub copied : (size m : ℕ) (xs : List ℕ) → take (at_most size m) xs ≡ take size (take m xs)
copied size m xs = elim (Bool-cases (ltb size m)) [
  | inl e ↦ rw e (sym (take-take_le size m xs (ground arith)))
  | inr e ↦ rw e (sym (take-take_ge size m xs (ground arith)))
]

pub remaining :
    (size m : ℕ) (xs : List ℕ)
    → take (m - at_most size m) (drop (at_most size m) xs) ≡ drop size (take m xs)
remaining size m xs = elim (Bool-cases (ltb size m)) [
  | inl e ↦ rw e (sym (drop-take size m xs))
  | inr e ↦ rw e (
      take_none (m - m) (drop m xs) (omega arith)
      ∙ sym (drop-take size m xs ∙ take_none (m - size) (drop size xs) (ground arith)))
]
