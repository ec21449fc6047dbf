-- ===== src/Cube/Colours.antt =====
-- The search of `main` on cubes: the cubes that rotations reach keep the colours of the solved cube.
use mathlib.Core.List.{Perm}
use mathlib.Core.List.Perm
use hodgepodge.Prelude.{
  ℕ, zero, suc, ◌+◌, ◌<◌, ◌≡◌, refl, sym, subst, ◌∙◌, inl, inr, ◌↔◌, true, List, [], ◌∷◌, map, some,
  arith, length, range_from, Perm-length, Bool-cases,
}
use hodgepodge.Cube.{Cube, rotate, same, reset}
use hodgepodge.Cube.Search.{member, rotations, search}
use hodgepodge.Cube.Rotation.{rotate-perm}
use hodgepodge.Cube.Complete.{Reaches, here, moved, search_finds_reachable}

same_refl : (x : Cube) → same x x ≡ true
unfolding same
same_refl [] = refl
same_refl (a ∷ x) = ground (arith, same_refl x)

eq_of_same : (x y : Cube) → same x y ≡ true → x ≡ y
unfolding same
eq_of_same [] [] h = refl
eq_of_same [] (b ∷ y) h = cc
eq_of_same (a ∷ x) [] h = cc
eq_of_same (a ∷ x) (b ∷ y) h = ground (arith, eq_of_same x y)

pub same_iff : (x y : Cube) → (same x y ≡ true) ↔ (x ≡ y)
same_iff x y = (eq_of_same x y, λ e. subst (λ z. same x z ≡ true) e (same_refl x))

member-rotations :
    (x y : Cube) (i n : ℕ)
    → member same y (map (λ j. rotate j x) (range_from i n)) ≡ true
    → (j : ℕ) × (j < i + n) × (y ≡ rotate j x)
unfolding member
member-rotations x y i zero h = cc
member-rotations x y i (suc n) h = elim (Bool-cases (same y (rotate i x))) [
  | inl hit ↦ (i, omega arith, eq_of_same y (rotate i x) hit)
  | inr miss ↦ let (j, lt, e) = member-rotations x y (suc i) n (ground arith) in (j, omega arith, e)
]

-- A cube that rotations reach from the solved cube has 48 stickers, and as many of each colour as
-- the solved cube.
pub Reaches-perm : {c : Cube} → Reaches same rotations reset c → (length c ≡ 48) × Perm c reset
unfolding reset rotations
Reaches-perm here = (refl, Perm.rfl)
Reaches-perm (moved {x} r y m) =
    let (n, p) = Reaches-perm r in
    let (j, lt, e) = member-rotations x y 0 6 m in
    let q = subst (λ z. Perm z x) (sym e) (rotate-perm j x (omega arith) n) in
    (Perm-length q ∙ n, Perm.trans q p)

-- The search of `main`, where it ends, has fixed the cubes that rotations reach, and no others.
pub search_finds_cubes :
    (fuel : ℕ) (out : List Cube)
    → search fuel ≡ some out
    → (c : Cube) → (member same c out ≡ true) ↔ Reaches same rotations reset c
unfolding search
search_finds_cubes fuel out e = search_finds_reachable same rotations same_iff fuel reset out e
