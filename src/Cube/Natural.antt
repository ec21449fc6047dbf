-- ===== src/Cube/Natural.antt =====
-- A rotation moves stickers and does not look at them.
use mathlib.Core.List.{map-append}
use hodgepodge.Prelude.{
  ℕ, zero, suc, ◌≡◌, refl, ap, ap₂, ◌∙◌, List, [], ◌∷◌, map, set, take, drop, get_or,
}
use hodgepodge.Cube.{write_at, turn_row, turn_peers, rotate_face, peer_off}

module _ {ℓ κ} {A : Type ℓ} {B : Type κ} (g : A → B) where
  take-map : (n : ℕ) (xs : List A) → take n (map g xs) ≡ map g (take n xs)
  take-map zero xs = refl
  take-map (suc n) [] = refl
  take-map (suc n) (x ∷ xs) = ap (◌∷◌ (g x)) (take-map n xs)

  drop-map : (n : ℕ) (xs : List A) → drop n (map g xs) ≡ map g (drop n xs)
  drop-map zero xs = refl
  drop-map (suc n) [] = refl
  drop-map (suc n) (x ∷ xs) = drop-map n xs

  set-map : (xs : List A) (i : ℕ) (v : A) → set (map g xs) i (g v) ≡ map g (set xs i v)
  set-map [] i v = refl
  set-map (x ∷ xs) zero v = refl
  set-map (x ∷ xs) (suc i) v = ap (◌∷◌ (g x)) (set-map xs i v)

  get_or-map : (xs : List A) (i : ℕ) (d : A) → get_or (map g xs) i (g d) ≡ g (get_or xs i d)
  get_or-map [] i d = refl
  get_or-map (x ∷ xs) zero d = refl
  get_or-map (x ∷ xs) (suc i) d = get_or-map xs i d

  write_at-map :
      (s : List A) (offs : List ℕ) (vals : List A)
      → write_at (map g s) offs (map g vals) ≡ map g (write_at s offs vals)
  unfolding write_at
  write_at-map s [] vals = refl
  write_at-map s (o ∷ offs) [] = refl
  write_at-map s (o ∷ offs) (v ∷ vals) =
      ap (λ t. write_at t offs (map g vals)) (set-map s o v) ∙ write_at-map (set s o v) offs vals

  reads-map :
      (s : List A) (d : A) (offs : List ℕ)
      → map (λ o. get_or (map g s) o (g d)) offs ≡ map g (map (λ o. get_or s o d) offs)
  reads-map s d [] = refl
  reads-map s d (o ∷ offs) = ap₂ ◌∷◌ (get_or-map s o d) (reads-map s d offs)

  turn_row-map : (f : ℕ) (s : List A) → turn_row f (map g s) ≡ map g (turn_row f s)
  unfolding turn_row
  turn_row-map f s = simp (take-map, drop-map, ← map-append)

  turn_peers-map :
      (d : A) (offs : List ℕ) (s : List A)
      → turn_peers (g d) offs (map g s) ≡ map g (turn_peers d offs s)
  unfolding turn_peers
  turn_peers-map d offs s = simp (reads-map, take-map, drop-map, ← map-append, write_at-map)

  pub rotate_face-map :
      (d : A) (f : ℕ) (s : List A) → rotate_face (g d) f (map g s) ≡ map g (rotate_face d f s)
  unfolding rotate_face
  rotate_face-map d f s =
      ap (turn_peers (g d) (peer_off f)) (turn_row-map f s)
      ∙ turn_peers-map d (peer_off f) (turn_row f s)
