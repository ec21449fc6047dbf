-- ===== src/Ipc.antt =====
-- tipc.cpp, the Linux part: `ipc_io_service` and its map from handles to connections. A connection is
-- the number that stands for its address, and a null pointer is `none`.
pub mod Handles
pub mod Registered
use hodgepodge.Prelude.{
  ℕ, Bool, true, false, List, [], ◌∷◌, ◌++◌, Option, none, some, if◌then◌else◌, ltb, get_or, set, ℤ,
  pos, negsuc, size_of_int, eq_int,
}

-- The calls of `epoll_ctl`, oldest first.
pub data EpollCall : Type 0 where
  add : ℤ → EpollCall
  del : ℤ → EpollCall

pub record Service : Type 0 where
  pub map_fast : List (Option ℕ)
  pub map : List (ℤ × Option ℕ)
  pub epoll : List EpollCall

-- `INVALID_OS_HANDLE`
abbrev pub invalid : ℤ
invalid = negsuc 0

abbrev pub map_fast_size : ℕ
map_fast_size = 1024

-- A handle as an `unsigned long`, where the fast map has room for it.
abbrev pub is_fast : ℤ → Bool
is_fast oshd = ltb (size_of_int oshd) map_fast_size

-- `std::map`: its entries.
unfoldable pub find : ℤ → List (ℤ × Option ℕ) → Option (Option ℕ)
find oshd [] = none
find oshd ((k, c) ∷ rest) = if eq_int k oshd then some c else find oshd rest

unfoldable pub assign : ℤ → Option ℕ → List (ℤ × Option ℕ) → List (ℤ × Option ℕ)
assign oshd c [] = []
assign oshd c ((k, old) ∷ rest) =
    if eq_int k oshd then (k, c) ∷ rest else (k, old) ∷ assign oshd c rest

unfoldable pub remove : ℤ → List (ℤ × Option ℕ) → List (ℤ × Option ℕ)
remove oshd [] = []
remove oshd ((k, old) ∷ rest) =
    if eq_int k oshd then remove oshd rest else (k, old) ∷ remove oshd rest

-- A missing entry is made, null.
unfoldable pub make_entry : ℤ → List (ℤ × Option ℕ) → List (ℤ × Option ℕ)
make_entry oshd m = elim (find oshd m) [ none ↦ (oshd, none) ∷ m | some c ↦ m ]

abbrev pub or_null : Option (Option ℕ) → Option ℕ
or_null none = none
or_null (some c) = c

-- `get` as a read: the service with the entry, and what the entry holds.
unfoldable pub get : ℤ → Service → Service × Option ℕ
unfolding make_entry
get oshd s =
    if is_fast oshd
    then (s, get_or s.map_fast (size_of_int oshd) none)
    else (record s { map = make_entry oshd s.map }, or_null (find oshd (make_entry oshd s.map)))

-- `get(oshd) = c`
unfoldable pub put : ℤ → Option ℕ → Service → Service
unfolding make_entry
put oshd c s =
    if is_fast oshd
    then record s { map_fast = set s.map_fast (size_of_int oshd) c }
    else record s { map = assign oshd c (make_entry oshd s.map) }

unfoldable pub erase : ℤ → Service → Service
erase oshd s =
    if is_fast oshd
    then record s { map_fast = set s.map_fast (size_of_int oshd) none }
    else record s { map = remove oshd s.map }

unfoldable pub call_epoll : EpollCall → Service → Service
call_epoll c s = record s { epoll = s.epoll ++ c ∷ [] }

abbrev pub is_null : Option ℕ → Bool
is_null none = true
is_null (some c) = false

-- `associate`, of a connection with the handle `oshd`.
unfoldable pub associate : ℤ → ℕ → Service → Service
associate oshd pconn s =
    if eq_int oshd invalid
    then s
    else let (s', p_conn) = get oshd s in
      put oshd (some pconn) (if is_null p_conn then call_epoll (add oshd) s' else s')

-- `unassociate`
unfoldable pub unassociate : ℤ → Service → Service
unassociate oshd s = if eq_int oshd invalid then s else erase oshd (call_epoll (del oshd) s)

-- The constructor: `m_map_fast` holds what its memory held, since nothing sets it on Linux.
unfoldable pub start : List (Option ℕ) → Service
start memory = record { map_fast = memory; map = []; epoll = [] }

-- What the connections ask of their service.
pub data Request : Type 0 where
  connected : ℤ → ℕ → Request
  gone : ℤ → Request

unfoldable pub serve : Request → Service → Service
serve (connected oshd c) s = associate oshd c s
serve (gone oshd) s = unassociate oshd s

unfoldable pub serve_all : List Request → Service → Service
serve_all [] s = s
serve_all (r ∷ rs) s = serve_all rs (serve r s)
