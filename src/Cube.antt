-- ===== src/Cube.antt =====
-- tcube.cpp: the cube of 48 stickers, its six rotations, and the search of `main`.
pub mod Natural
pub mod Rotation
pub mod Pairing
pub mod Search
pub mod Derive
pub mod Complete
pub mod Fuel
pub mod Colours
use hodgepodge.Prelude.{
  ℕ, zero, suc, ◌+◌, ◌-◌, ◌*◌, ◌%◌, Bool, true, false, ◌&&◌, List, [], ◌∷◌, ◌++◌, map, Option, none,
  some, if◌then◌else◌, ◌==◌, length, set, take, drop, get_or, replicate, range_from,
}

-- `cube_edge_link`
pub record Link : Type 0 where
  pub face0 : ℕ
  pub edge0 : ℕ
  pub face1 : ℕ
  pub edge1 : ℕ

abbrev link : ℕ → ℕ → ℕ → ℕ → Link
link f e f' e' = record { face0 = f; edge0 = e; face1 = f'; edge1 = e' }

-- The table `el` of the edges that touch.
unfoldable pub links : List Link
links =
    link 0 0 5 2
    ∷ link 0 1 3 0
    ∷ link 0 2 2 0
    ∷ link 0 3 1 0
    ∷ link 4 0 2 2
    ∷ link 4 1 3 2
    ∷ link 4 2 5 0
    ∷ link 4 3 1 2
    ∷ link 1 1 2 3
    ∷ link 2 1 3 3
    ∷ link 3 1 5 1
    ∷ link 1 3 5 3
    ∷ []

-- The offset in `s` of `get(face, edge, id)`.
unfoldable pub offset : ℕ → ℕ → ℕ → ℕ
offset face edge id = face * 8 + (edge * 2 + id) % 8

-- `for (k = 0; k < 3; k++) peer_off[face][edge*3+k] = &get(face', edge', 3-k) - s`, on the table
-- as one row of 72 offsets.
unfoldable pub pair_edge : ℕ → ℕ → ℕ → ℕ → List ℕ → List ℕ
unfolding offset
pair_edge face edge face' edge' table =
    let at = face * 12 + edge * 3 in
    set (set (set table at (offset face' edge' 3)) (at + 1) (offset face' edge' 2)) (at + 2)
      (offset face' edge' 1)

unfoldable pub init_peer_off : List Link → List ℕ → List ℕ
unfolding pair_edge
init_peer_off [] table = table
init_peer_off (l ∷ ls) table =
    init_peer_off ls
      (pair_edge l.face1 l.edge1 l.face0 l.edge0 (pair_edge l.face0 l.edge0 l.face1 l.edge1 table))

-- The row `peer_off[f]` after `init_peer_off`.
unfoldable pub peer_off : ℕ → List ℕ
unfolding init_peer_off links
peer_off f = take 12 (drop (f * 12) (init_peer_off links (replicate 72 0)))

module _ {ℓ} {A : Type ℓ} where
  -- `s[offs[k]] = vals[k]` in turn.
  unfoldable pub write_at : List A → List ℕ → List A → List A
  write_at s [] vals = s
  write_at s (o ∷ offs) [] = s
  write_at s (o ∷ offs) (v ∷ vals) = write_at (set s o v) offs vals

  -- The face's own stickers: eight and then two to `temp`, and eight back from `temp + 2`.
  unfoldable pub turn_row : ℕ → List A → List A
  turn_row f s =
      let row = take 8 (drop (f * 8) s) in
      take (f * 8) s ++ (take 8 (drop 2 (row ++ take 2 row)) ++ drop (f * 8 + 8) s)

  -- The neighbours' stickers: twelve and then three to `temp`, and twelve back from `temp + 3`. The
  -- element `d` stands for a read outside `s`.
  unfoldable pub turn_peers : A → List ℕ → List A → List A
  unfolding write_at
  turn_peers d offs s =
      let temp = map (λ o. get_or s o d) offs in write_at s offs (drop 3 (temp ++ take 3 temp))

  unfoldable pub rotate_face : A → ℕ → List A → List A
  unfolding turn_row turn_peers peer_off
  rotate_face d f s = turn_peers d (peer_off f) (turn_row f s)

-- `char s[6*8]`
abbrev pub Cube : Type 0
Cube = List ℕ

unfoldable pub rotate : ℕ → Cube → Cube
rotate = rotate_face 0

-- `reset`: the eight stickers of a face have its number for their colour.
unfoldable pub reset : Cube
reset =
    replicate 8 0
    ++ (replicate 8 1 ++ (replicate 8 2 ++ (replicate 8 3 ++ (replicate 8 4 ++ replicate 8 5))))

-- `memcmp(a.s, b.s, 48) == 0`
unfoldable pub same : Cube → Cube → Bool
same [] [] = true
same [] (y ∷ ys) = false
same (x ∷ xs) [] = false
same (x ∷ xs) (y ∷ ys) = (x == y) && same xs ys
