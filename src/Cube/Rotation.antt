-- ===== src/Cube/Rotation.antt =====
-- What a rotation does to the 48 stickers.
use mathlib.Core.List.{Perm}
use mathlib.Core.List.Perm
use hodgepodge.Prelude.{
  ℕ, zero, suc, ◌+◌, ◌<◌, ◌≡◌, refl, sym, ◌==◌, ◌/◌, ◌%◌, ◌*◌, ◌-◌, ◌&&◌, ap, subst, ◌∙◌, List, [],
  ◌∷◌, map, arith, length, get_or, get_or-outside, range_from, leb, if◌then◌else◌, Bool-cases, inl,
  inr,
}
use hodgepodge.Cube.{Link, links, rotate_face, rotate, Cube}
use hodgepodge.Cube.Natural.{rotate_face-map}

abbrev positions : List ℕ
positions = range_from 0 48

-- The sticker at a position; position 48 is outside.
abbrev read : Cube → ℕ → ℕ
read s i = get_or s i 0

map-read :
    (s : List ℕ) (i : ℕ) (f : ℕ → ℕ)
    → ((j : ℕ) → f (i + j) ≡ read s j)
    → map f (range_from i (length s)) ≡ s
map-read [] i f h = refl
map-read (x ∷ s) i f h =
    ground (arith, h 0, map-read s (suc i) f (λ j. ap f (omega arith) ∙ h (suc j)))

read-positions : (s : Cube) → length s ≡ 48 → map (read s) positions ≡ s
read-positions s h =
    subst (λ n. map (read s) (range_from 0 n) ≡ s) h
      (map-read s 0 (read s) (λ j. ap (read s) (omega arith)))

-- The rotation of the positions.
abbrev quarter : ℕ → List ℕ → List ℕ
quarter f ps = rotate_face 48 f ps

rotate-read :
    (f : ℕ) (s : Cube) (ps : List ℕ)
    → length s ≡ 48
    → rotate f (map (read s) ps) ≡ map (read s) (quarter f ps)
unfolding rotate
rotate-read f s ps h =
    subst (λ d. rotate_face d f (map (read s) ps) ≡ map (read s) (quarter f ps))
      (get_or-outside s 48 0 (omega arith)) (rotate_face-map (read s) 48 f ps)

-- The edge that touches an edge of a face, by the list of the edges that touch.
abbrev pub touching : List Link → ℕ → ℕ → ℕ × ℕ
touching [] face edge = (0, 0)
touching (l ∷ ls) face edge =
    if (l.face0 == face) && (l.edge0 == edge)
    then (l.face1, l.edge1)
    else if (l.face1 == face) && (l.edge1 == edge)
    then (l.face0, l.edge0)
    else touching ls face edge

-- The twelve stickers around a face, three on each edge: the k-th one is, with the eight stickers of a face
-- counted around it from an end of its edge 0, the one at 3 - k % 3 from the end of the edge that touches.
abbrev pub ring : ℕ → ℕ → ℕ
unfolding links
ring f k = let (face, edge) = touching links f (k / 3) in face * 8 + (edge * 2 + (3 - k % 3)) % 8

-- The place from which the sticker at `p` of the ring comes, among the first k.
abbrev pub ring_source : ℕ → ℕ → ℕ → ℕ
ring_source f p zero = p
ring_source f p (suc k) = if ring f k == p then ring f ((k + 3) % 12) else ring_source f p k

-- The place from which a rotation of the face `f` brings the sticker at `p`: on the face two further around it,
-- on the ring three further along it, and elsewhere `p` itself.
abbrev pub source : ℕ → ℕ → ℕ
source f p = if p / 8 == f then f * 8 + (p + 2) % 8 else ring_source f p 12

quarter-source : (f : ℕ) → f < 6 → quarter f positions ≡ map (source f) positions
unfolding rotate_face ring
quarter-source zero h = refl
quarter-source (suc zero) h = refl
quarter-source (suc (suc zero)) h = refl
quarter-source (suc (suc (suc zero))) h = refl
quarter-source (suc (suc (suc (suc zero)))) h = refl
quarter-source (suc (suc (suc (suc (suc zero))))) h = refl
quarter-source (suc (suc (suc (suc (suc (suc f)))))) h = absurd (omega arith)

get_or-map :
    (g : ℕ → ℕ) (h : ℕ → ℕ) (i n p d : ℕ)
    → p < n
    → get_or (map g (map h (range_from i n))) p d ≡ g (h (i + p))
get_or-map g h i zero p d k = absurd (omega arith)
get_or-map g h i (suc n) zero d k = let e : i ≡ i + 0 = omega arith in ap (λ j. g (h j)) e
get_or-map g h i (suc n) (suc p) d k =
    let e : suc i + p ≡ i + suc p = omega arith in
    get_or-map g h (suc i) n p d (omega arith) ∙ ap (λ j. g (h j)) e

-- What a rotation of a face does to any cube of 48 stickers: each of the eight stickers of the face moves two
-- further around it, each of the twelve of the ring three further along it, and the others stay. The
-- ring is that of the table, with 3 - k where the stickers of an edge would be 2 - k.
pub rotate-source :
    (f p : ℕ) (s : Cube)
    → f < 6
    → p < 48
    → length s ≡ 48
    → get_or (rotate f s) p 0 ≡ get_or s (source f p) 0
rotate-source f p s h k n =
    ap (λ t. get_or (rotate f t) p 0) (sym (read-positions s n))
    ∙ ap (λ t. get_or t p 0) (rotate-read f s positions n ∙ ap (map (read s)) (quarter-source f h))
    ∙ get_or-map (read s) (source f) 0 48 p 0 k
    ∙ ap (λ j. read s (source f j)) {y = p} (omega arith)

-- Sorting, to compare a rotation's positions with all positions.
put_in : ℕ → List ℕ → List ℕ
put_in x [] = x ∷ []
put_in x (y ∷ ys) = if leb x y then x ∷ y ∷ ys else y ∷ put_in x ys

sorted : List ℕ → List ℕ
unfolding put_in
sorted [] = []
sorted (x ∷ xs) = put_in x (sorted xs)

put_in-perm : (x : ℕ) (ys : List ℕ) → Perm (x ∷ ys) (put_in x ys)
unfolding put_in
put_in-perm x [] = Perm.rfl
put_in-perm x (y ∷ ys) = elim (Bool-cases (leb x y)) [
  | inl le ↦ rw le Perm.rfl
  | inr gt ↦ rw gt (Perm.trans (Perm.swap y x ys) (Perm.cons y (put_in-perm x ys)))
]

sorted-perm : (xs : List ℕ) → Perm xs (sorted xs)
unfolding sorted
sorted-perm [] = Perm.rfl
sorted-perm (x ∷ xs) = Perm.trans (Perm.cons x (sorted-perm xs)) (put_in-perm x (sorted xs))

sorted-quarter : (f : ℕ) → f < 6 → sorted (quarter f positions) ≡ positions
unfolding rotate_face sorted
sorted-quarter zero h = refl
sorted-quarter (suc zero) h = refl
sorted-quarter (suc (suc zero)) h = refl
sorted-quarter (suc (suc (suc zero))) h = refl
sorted-quarter (suc (suc (suc (suc zero)))) h = refl
sorted-quarter (suc (suc (suc (suc (suc zero))))) h = refl
sorted-quarter (suc (suc (suc (suc (suc (suc f)))))) h = absurd (omega arith)

-- A rotation moves the 48 stickers about: none is lost and none is made.
pub rotate-perm : (f : ℕ) (s : Cube) → f < 6 → length s ≡ 48 → Perm (rotate f s) s
rotate-perm f s h n =
    subst (λ t. Perm (rotate f t) t) (read-positions s n)
      (rw (rotate-read f s positions n) (
        Perm.map (read s) (
          subst (Perm (quarter f positions)) (sorted-quarter f h)
            (sorted-perm (quarter f positions)))))
