-- ===== src/Cube/Search.antt =====
-- The breadth-first search in `main` of tcube.cpp, for any states, moves and test of equality. A
-- `std::set` is the list of its elements, found by the test.
use hodgepodge.Prelude.{
  ℕ, zero, suc, Bool, true, false, List, [], ◌∷◌, ◌++◌, map, Option, none, some, if◌then◌else◌,
  range_from,
}
use hodgepodge.Cube.{Cube, rotate, same, reset}

-- `node_fixed` and `na_next`.
pub record Nodes {ℓ} (A : Type ℓ) : Type ℓ where
  pub fixed : List A
  pub next : List A

module _ {ℓ} {A : Type ℓ} (eq : A → A → Bool) where
  -- `find(n) != end()`
  unfoldable pub member : A → List A → Bool
  member x [] = false
  member x (y ∷ ys) = if eq x y then true else member x ys

  unfoldable pub insert : A → List A → List A
  insert x s = if member x s then s else x ∷ s

  -- A derived node that is not fixed yet is fixed, and will act in the next round.
  unfoldable pub add_node : A → Nodes A → Nodes A
  add_node n s =
      if member n s.fixed then s else record { fixed = insert n s.fixed; next = s.next ++ n ∷ [] }

  -- The loop over the six rotations of a node.
  unfoldable pub derive : List A → Nodes A → Nodes A
  derive [] s = s
  derive (n ∷ ns) s = derive ns (add_node n s)

module _ {ℓ} {A : Type ℓ} (eq : A → A → Bool) (moves : A → List A) where
  -- The loop over the acting nodes.
  unfoldable pub visit : List A → Nodes A → Nodes A
  visit [] s = s
  visit (c ∷ cs) s =
      visit cs (derive eq (moves c) (record { fixed = insert eq c s.fixed; next = s.next }))

  unfoldable pub level : List A → List A → Nodes A
  level acting fixed = visit acting (record { fixed = fixed; next = [] })

  -- The outer loop, by the rounds left: `none` if they do not suffice.
  unfoldable pub search_from : ℕ → List A → List A → Option (List A)
  search_from zero acting fixed = none
  search_from (suc fuel) [] fixed = some fixed
  search_from (suc fuel) (c ∷ cs) fixed =
      let after = level (c ∷ cs) fixed in search_from fuel after.next after.fixed

-- The six rotations of a cube.
unfoldable pub rotations : Cube → List Cube
rotations c = map (λ i. rotate i c) (range_from 0 6)

-- `main`, with a bound on the depth.
unfoldable pub search : ℕ → Option (List Cube)
search fuel = search_from same rotations fuel (reset ∷ []) []
