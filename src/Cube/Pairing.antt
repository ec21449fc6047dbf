-- ===== src/Cube/Pairing.antt =====
-- Which stickers `init_peer_off` takes for neighbours across an edge. On a face the stickers with an
-- even number are corners and those with an odd number are middles.
use hodgepodge.Prelude.{
  ℕ, ◌+◌, ◌*◌, ◌%◌, ◌<◌, ◌≡◌, refl, true, get_or, ◌==◌, ==_iff, passes_from, passes, Bool,
}
use hodgepodge.Cube.{offset, peer_off}

abbrev is_mixed : ℕ → ℕ → ℕ → Bool
is_mixed f e k = (get_or (peer_off f) (e * 3 + k) 0 % 2 + offset f e k % 2) == 1

edge_table : ℕ → ℕ → Bool
edge_table f e = passes_from (is_mixed f e) 0 3

face_table : ℕ → Bool
face_table f = passes_from (edge_table f) 0 4

table : passes_from face_table 0 6 ≡ true
unfolding face_table edge_table passes_from peer_off offset
table = refl

-- Across each edge of each face the table pairs every corner sticker with a middle sticker and
-- every middle sticker with a corner sticker.
pub pairs_corner_with_middle :
    (f e k : ℕ)
    → f < 6
    → e < 4
    → k < 3
    → get_or (peer_off f) (e * 3 + k) 0 % 2 + offset f e k % 2 ≡ 1
unfolding face_table edge_table
pairs_corner_with_middle f e k hf he hk =
    let face = passes face_table 6 f hf table in
    let edge = passes (edge_table f) 4 e he face in
    (==_iff _ 1).0 (passes (is_mixed f e) 3 k hk edge)
