-- ===== src/Ipc/Handles.antt =====
-- `ipc_io_service` as a map from handles to connections, and the calls of `epoll_ctl`.
use hodgepodge.Prelude.{
  ℕ, ◌≡◌, refl, ap, sym, inl, inr, ◌↔◌, true, false, List, [], ◌∷◌, Option, none, some,
  if◌then◌else◌, get_or, set, ℤ, arith, Option-cases, length, length-set, size_of_int,
  size_of_int-eq, IsInt, get_or-set, eq_int, eq_int_iff,
}
use hodgepodge.Ipc.{
  EpollCall, add, del, Service, invalid, map_fast_size, is_fast, find, assign, remove, make_entry,
  or_null, get, put, erase, call_epoll, is_null, associate, unassociate,
}

eq_int-same : (k oshd j : ℤ) → eq_int j oshd ≡ true → eq_int oshd k ≡ eq_int j k
eq_int-same k oshd j e = ap (λ z. eq_int z k) (sym ((eq_int_iff j oshd).0 e))

pub find-make_entry :
    (k oshd : ℤ) (m : List (ℤ × Option ℕ))
    → or_null (find k (make_entry oshd m)) ≡ or_null (find k m)
unfolding make_entry find
find-make_entry k oshd m = ground (arith, eq_int_iff oshd k)

find-assign :
    (k oshd : ℤ) (c : Option ℕ) (m : List (ℤ × Option ℕ)) (old : Option ℕ)
    → find oshd m ≡ some old
    → find k (assign oshd c m) ≡ (if eq_int oshd k then some c else find k m)
unfolding find assign
find-assign k oshd c [] old e = cc
find-assign k oshd c ((j, d) ∷ m) old e =
    ground (arith, eq_int-same k oshd j, find-assign k oshd c m old)

find-remove :
    (k oshd : ℤ) (m : List (ℤ × Option ℕ))
    → find k (remove oshd m) ≡ (if eq_int oshd k then none else find k m)
unfolding find remove
find-remove k oshd [] = ground arith
find-remove k oshd ((j, d) ∷ m) = ground (arith, eq_int-same k oshd j, find-remove k oshd m)

-- A service as a map.
abbrev pub view : Service → ℤ → Option ℕ
view s oshd = (get oshd s).1

abbrev pub IsValid : Service → Type 0
IsValid s = length s.map_fast ≡ map_fast_size

find-entry :
    (oshd : ℤ) (m : List (ℤ × Option ℕ)) → (c : Option ℕ) × (find oshd (make_entry oshd m) ≡ some c)
unfolding make_entry find
find-entry oshd m = elim (Option-cases (find oshd m)) [
  | inl e ↦ (none, ground (arith, e, eq_int_iff oshd oshd))
  | inr (c, e) ↦ (c, ground (arith, e))
]

-- Reading an entry changes none.
pub view-get : (s : Service) (oshd k : ℤ) → view (get oshd s).0 k ≡ view s k
unfolding get
view-get s oshd k = ground (
  arith,
  find-make_entry k oshd s.map,
  find-make_entry k k s.map,
  find-make_entry k k (make_entry oshd s.map),
)

-- Two fast handles are one place only if they are equal.
fast_place : (a b : ℤ) → IsInt a → IsInt b → (size_of_int a ≡ size_of_int b) ↔ (eq_int a b ≡ true)
fast_place a b h k = ground (arith, size_of_int-eq a b h k)

-- Equal handles have the same place.
same_place : (a b : ℤ) → eq_int a b ≡ true → size_of_int a ≡ size_of_int b
same_place a b e = ap size_of_int ((eq_int_iff a b).0 e)

put-fast :
    (s : Service) (oshd k : ℤ) (c : Option ℕ)
    → IsValid s
    → IsInt oshd
    → IsInt k
    → is_fast oshd ≡ true
    → get_or (set s.map_fast (size_of_int oshd) c) (size_of_int k) none
      ≡ (if eq_int oshd k then c else get_or s.map_fast (size_of_int k) none)
put-fast s oshd k c v h i a =
    ground (
      arith,
      fast_place oshd k h i,
      get_or-set s.map_fast (size_of_int oshd) (size_of_int k) c none,
    )

put-slow :
    (oshd k : ℤ) (c : Option ℕ) (m : List (ℤ × Option ℕ))
    → or_null (find k (assign oshd c (make_entry oshd m)))
      ≡ (if eq_int oshd k then c else or_null (find k m))
put-slow oshd k c m =
    let (old, e) = find-entry oshd m in
    ground (arith, find-assign k oshd c (make_entry oshd m) old e, find-make_entry k oshd m)

pub view-put :
    (s : Service) (oshd k : ℤ) (c : Option ℕ)
    → IsValid s
    → IsInt oshd
    → IsInt k
    → view (put oshd c s) k ≡ (if eq_int oshd k then c else view s k)
unfolding get put
view-put s oshd k c v h i = ground (
  arith,
  put-fast s oshd k c v h i,
  put-slow oshd k c s.map,
  same_place oshd k,
  find-make_entry k k s.map,
  find-make_entry k k (assign oshd c (make_entry oshd s.map)),
)

pub view-erase :
    (s : Service) (oshd k : ℤ)
    → IsValid s
    → IsInt oshd
    → IsInt k
    → view (erase oshd s) k ≡ (if eq_int oshd k then none else view s k)
unfolding get erase
view-erase s oshd k v h i = ground (
  arith,
  put-fast s oshd k none v h i,
  same_place oshd k,
  find-remove k oshd s.map,
  find-make_entry k k s.map,
  find-make_entry k k (remove oshd s.map),
)

view-call_epoll : (e : EpollCall) (s : Service) (k : ℤ) → view (call_epoll e s) k ≡ view s k
unfolding get call_epoll
view-call_epoll e s k = ground arith

pub get-IsValid : (s : Service) (oshd : ℤ) → IsValid s → IsValid (get oshd s).0
unfolding get
get-IsValid s oshd v = ground arith

call_epoll-IsValid : (e : EpollCall) (s : Service) → IsValid s → IsValid (call_epoll e s)
unfolding call_epoll
call_epoll-IsValid e s v = v

pub put-IsValid : (oshd : ℤ) (c : Option ℕ) (s : Service) → IsValid s → IsValid (put oshd c s)
unfolding put
put-IsValid oshd c s v = ground (arith, length-set s.map_fast (size_of_int oshd) c)

pub erase-IsValid : (oshd : ℤ) (s : Service) → IsValid s → IsValid (erase oshd s)
unfolding erase
erase-IsValid oshd s v = ground (arith, length-set s.map_fast (size_of_int oshd) none)

-- What `associate` leaves before its last write: the entry exists, and the handle is registered.
abbrev registered_now : ℤ → Service → Service
registered_now oshd s =
    if is_null (view s oshd) then call_epoll (add oshd) (get oshd s).0 else (get oshd s).0

registered_now-view : (s : Service) (oshd k : ℤ) → view (registered_now oshd s) k ≡ view s k
registered_now-view s oshd k =
    ground (arith, view-call_epoll (add oshd) (get oshd s).0 k, view-get s oshd k)

pub registered_now-IsValid : (s : Service) (oshd : ℤ) → IsValid s → IsValid (registered_now oshd s)
registered_now-IsValid s oshd v =
    ground (arith, call_epoll-IsValid (add oshd) (get oshd s).0, get-IsValid s oshd v)

pub associate-put :
    (s : Service) (oshd : ℤ) (c : ℕ)
    → associate oshd c s
      ≡ (if eq_int oshd invalid then s else put oshd (some c) (registered_now oshd s))
unfolding associate
associate-put s oshd c = refl

pub view-associate :
    (s : Service) (oshd k : ℤ) (c : ℕ)
    → IsValid s
    → IsInt oshd
    → IsInt k
    → eq_int oshd invalid ≡ false
    → view (associate oshd c s) k ≡ (if eq_int oshd k then some c else view s k)
view-associate s oshd k c v h i n = ground (
  arith,
  associate-put s oshd c,
  view-put (registered_now oshd s) oshd k (some c) (registered_now-IsValid s oshd v) h i,
  registered_now-view s oshd k,
)

pub view-unassociate :
    (s : Service) (oshd k : ℤ)
    → IsValid s
    → IsInt oshd
    → IsInt k
    → eq_int oshd invalid ≡ false
    → view (unassociate oshd s) k ≡ (if eq_int oshd k then none else view s k)
unfolding unassociate
view-unassociate s oshd k v h i n = ground (
  arith,
  view-erase (call_epoll (del oshd) s) oshd k (call_epoll-IsValid (del oshd) s v) h i,
  view-call_epoll (del oshd) s k,
)

pub associate-IsValid : (s : Service) (oshd : ℤ) (c : ℕ) → IsValid s → IsValid (associate oshd c s)
associate-IsValid s oshd c v = ground (
  arith,
  associate-put s oshd c,
  put-IsValid oshd (some c) (registered_now oshd s) (registered_now-IsValid s oshd v),
)

pub unassociate-IsValid : (s : Service) (oshd : ℤ) → IsValid s → IsValid (unassociate oshd s)
unfolding unassociate
unassociate-IsValid s oshd v =
    ground (arith, erase-IsValid oshd (call_epoll (del oshd) s) (call_epoll-IsValid (del oshd) s v))
