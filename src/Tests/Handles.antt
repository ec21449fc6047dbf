-- ===== src/Tests/Handles.antt =====
-- The map of tipc.cpp at concrete inputs.
use hodgepodge.Prelude.{
  ℕ, zero, suc, ap, ◌≡◌, refl, true, List, [], ◌∷◌, Option, none, some, arith, get_or, replicate,
  length, pos,
}
use hodgepodge.Ipc.{Request, connected, gone, serve_all, start}
use hodgepodge.Ipc.Handles.{view}
use hodgepodge.Ipc.Registered.{registered, connection_of, connection_after, map_and_epoll_agree}

abbrev empty_entry : Option ℕ
empty_entry = none

get_or-replicate : (n i : ℕ) → get_or (replicate n empty_entry) i none ≡ none
get_or-replicate zero i = refl
get_or-replicate (suc n) zero = refl
get_or-replicate (suc n) (suc i) = get_or-replicate n i

length-replicate : (n : ℕ) → length (replicate n empty_entry) ≡ n
length-replicate zero = refl
length-replicate (suc n) = ap suc (length-replicate n)

-- The fast map after it is cleared.
pub cleared : List (Option ℕ)
cleared = replicate 1024 none

pub cleared-length : length cleared ≡ 1024
unfolding cleared
cleared-length = length-replicate 1024

pub cleared-get_or : (i : ℕ) → get_or cleared i none ≡ none
unfolding cleared
cleared-get_or i = get_or-replicate 1024 i

-- The handle 5000 does not fit the fast map, and is given to a second connection in the end.
abbrev three_requests : List Request
three_requests =
    connected (pos 5000) 1 ∷ gone (pos 5000) ∷ connected (pos 7) 3 ∷ connected (pos 5000) 2 ∷ []

map_and_epoll_agree_example :
    (view (serve_all three_requests (start cleared)) (pos 5000) ≡ some 2)
    × (registered (pos 5000) (serve_all three_requests (start cleared)) ≡ true)
unfolding connection_after connection_of
map_and_epoll_agree_example =
    map_and_epoll_agree three_requests cleared (pos 5000) cleared-length cleared-get_or
      (omega arith, (omega arith, (omega arith, (omega arith, tt)))) (omega arith) refl
