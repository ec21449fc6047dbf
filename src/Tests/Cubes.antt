-- ===== src/Tests/Cubes.antt =====
-- tcube.cpp at concrete inputs, and its search on a graph of three nodes.
use hodgepodge.Prelude.{
  get_or, ℕ, ◌+◌, ◌%◌, ◌≡◌, refl, ◌↔◌, true, false, List, [], ◌∷◌, some, arith, length, ◌==◌,
  ==_iff,
}
use hodgepodge.Cube.{
  offset, peer_off, turn_row, turn_peers, rotate_face, rotate, reset, same, links, pair_edge,
  init_peer_off, write_at,
}
use hodgepodge.Cube.Search.{member, insert, add_node, derive, visit, level, search_from, rotations}
use hodgepodge.Cube.Rotation.{source, rotate-source}
use hodgepodge.Cube.Complete.{Reaches, search_finds_reachable}
use hodgepodge.Cube.Fuel.{search_ends}

reset-length : length reset ≡ 48
unfolding reset
reset-length = refl

-- Place 17 is on the face 2, place 13 in its ring, and place 33 away from both.
rotate-source_example : get_or (rotate 2 reset) 13 0 ≡ get_or reset (source 2 13) 0
rotate-source_example = rotate-source 2 13 reset (omega arith) (omega arith) reset-length

-- One turn is not the identity.
turned : same (rotate 0 reset) reset ≡ false
unfolding same rotate rotate_face turn_row turn_peers write_at peer_off init_peer_off pair_edge
    offset links reset
turned = refl

-- From 1 to 2 to 0 and back to 1; the node 7 is out of reach.
abbrev next_of_three : ℕ → List ℕ
next_of_three x = ((x + 1) % 3) ∷ []

three_runs : search_from ◌==◌ next_of_three 6 (1 ∷ []) [] ≡ some (0 ∷ 2 ∷ 1 ∷ [])
unfolding search_from level visit derive add_node insert member
three_runs = refl

search_finds_reachable_example :
    (member ◌==◌ 0 (0 ∷ 2 ∷ 1 ∷ []) ≡ true) ↔ Reaches ◌==◌ next_of_three 1 0
search_finds_reachable_example =
    search_finds_reachable ◌==◌ next_of_three ==_iff 6 1 (0 ∷ 2 ∷ 1 ∷ []) three_runs 0

three_keep :
    (x : ℕ)
    → member ◌==◌ x (0 ∷ 1 ∷ 2 ∷ []) ≡ true
    → (y : ℕ) → member ◌==◌ y (next_of_three x) ≡ true
    → member ◌==◌ y (0 ∷ 1 ∷ 2 ∷ []) ≡ true
unfolding member
three_keep x h y e = ground arith

search_ends_example : (out : List ℕ) × (search_from ◌==◌ next_of_three 5 (1 ∷ []) [] ≡ some out)
unfolding member
search_ends_example =
    search_ends ◌==◌ next_of_three ==_iff (0 ∷ 1 ∷ 2 ∷ []) 1 5 three_keep refl (omega arith)

first_turn : member same (rotate 0 reset) (rotations reset) ≡ true
unfolding member rotations same rotate rotate_face turn_row turn_peers write_at peer_off
    init_peer_off pair_edge offset links reset
first_turn = refl
