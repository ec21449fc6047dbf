-- ===== src/Ipc/Registered.antt =====
-- `ipc_io_service` over any sequence of `associate` and `unassociate`: the map and the calls of
-- `epoll_ctl` agree.
use hodgepodge.Prelude.{
  ℕ, ◌≡◌, refl, Bool, true, false, List, [], ◌∷◌, ◌++◌, Option, none, some, if◌then◌else◌, get_or,
  All, Bool-cases, inl, inr, size_of_int, ℤ, arith, length, IsInt, eq_int, eq_int_iff, not, ap,
  subst,
}
use hodgepodge.Ipc.{
  EpollCall, add, del, Service, invalid, map_fast_size, get, put, erase, call_epoll, is_null,
  associate, unassociate, start, Request, connected, gone, serve, serve_all, find, make_entry,
}
use hodgepodge.Ipc.Handles.{
  view, IsValid, view-associate, view-unassociate, associate-IsValid, unassociate-IsValid,
  associate-put,
}

-- What the last call for a handle makes of its registration.
unfoldable pub registered_after : ℤ → Bool → List EpollCall → Bool
registered_after k b [] = b
registered_after k b (add oshd ∷ cs) = registered_after k (if eq_int oshd k then true else b) cs
registered_after k b (del oshd ∷ cs) = registered_after k (if eq_int oshd k then false else b) cs

-- The handle is in the epoll set.
abbrev pub registered : ℤ → Service → Bool
registered k s = registered_after k false s.epoll

-- The reference: a handle's connection is that of its last request.
unfoldable pub connection_of : ℤ → Request → Option ℕ → Option ℕ
connection_of k (connected oshd d) c = if eq_int oshd k then some d else c
connection_of k (gone oshd) c = if eq_int oshd k then none else c

unfoldable pub connection_after : ℤ → List Request → Option ℕ → Option ℕ
connection_after k [] c = c
connection_after k (r ∷ rs) c = connection_after k rs (connection_of k r c)

-- The handle of a request is an `int`.
abbrev pub HasInt : Request → Type 0
HasInt (connected oshd d) = IsInt oshd
HasInt (gone oshd) = IsInt oshd

registered_after-append :
    (k : ℤ) (cs : List EpollCall) (b : Bool) (ds : List EpollCall)
    → registered_after k b (cs ++ ds) ≡ registered_after k (registered_after k b cs) ds
unfolding registered_after
registered_after-append k [] b ds = refl
registered_after-append k (add oshd ∷ cs) b ds = registered_after-append k cs _ ds
registered_after-append k (del oshd ∷ cs) b ds = registered_after-append k cs _ ds

registered-get : (k oshd : ℤ) (s : Service) → registered k (get oshd s).0 ≡ registered k s
unfolding get
registered-get k oshd s = ground arith

registered-add :
    (k oshd : ℤ) (s : Service)
    → registered k (call_epoll (add oshd) s) ≡ (if eq_int oshd k then true else registered k s)
unfolding call_epoll registered_after
registered-add k oshd s = registered_after-append k s.epoll false (add oshd ∷ [])

registered-del :
    (k oshd : ℤ) (s : Service)
    → registered k (call_epoll (del oshd) s) ≡ (if eq_int oshd k then false else registered k s)
unfolding call_epoll registered_after
registered-del k oshd s = registered_after-append k s.epoll false (del oshd ∷ [])

registered-put :
    (k oshd : ℤ) (c : Option ℕ) (s : Service) → registered k (put oshd c s) ≡ registered k s
unfolding put
registered-put k oshd c s = ground arith

registered-erase : (k oshd : ℤ) (s : Service) → registered k (erase oshd s) ≡ registered k s
unfolding erase
registered-erase k oshd s = ground arith

registered-associate :
    (k oshd : ℤ) (c : ℕ) (s : Service)
    → eq_int oshd invalid ≡ false
    → registered k (associate oshd c s) ≡ (
        if is_null (view s oshd)
        then (if eq_int oshd k then true else registered k s)
        else registered k s)
registered-associate k oshd c s n = ground (
  arith,
  associate-put s oshd c,
  registered-put k oshd (some c) (call_epoll (add oshd) (get oshd s).0),
  registered-put k oshd (some c) (get oshd s).0,
  registered-add k oshd (get oshd s).0,
  registered-get k oshd s,
)

registered-unassociate :
    (k oshd : ℤ) (s : Service)
    → eq_int oshd invalid ≡ false
    → registered k (unassociate oshd s) ≡ (if eq_int oshd k then false else registered k s)
unfolding unassociate
registered-unassociate k oshd s n =
    ground (arith, registered-erase k oshd (call_epoll (del oshd) s), registered-del k oshd s)

abbrev Agrees : ℤ → Service → Option ℕ → Type 0
Agrees k s c = IsValid s × (view s k ≡ c) × (registered k s ≡ not (is_null c))

view-same : (s : Service) (oshd k : ℤ) → eq_int oshd k ≡ true → view s oshd ≡ view s k
view-same s oshd k e = ap (view s) ((eq_int_iff oshd k).0 e)

Agrees-associate :
    (k oshd : ℤ) (d : ℕ) (s : Service) (c : Option ℕ)
    → IsInt oshd
    → IsInt k
    → eq_int oshd invalid ≡ false
    → Agrees k s c
    → Agrees k (associate oshd d s) (if eq_int oshd k then some d else c)
Agrees-associate k oshd d s c h i n (v, a, r) = (
  associate-IsValid s oshd d v,
  ground (arith, view-associate s oshd k d v h i n),
  ground (arith, registered-associate k oshd d s n, view-same s oshd k),
)

Agrees-unassociate :
    (k oshd : ℤ) (s : Service) (c : Option ℕ)
    → IsInt oshd
    → IsInt k
    → eq_int oshd invalid ≡ false
    → Agrees k s c
    → Agrees k (unassociate oshd s) (if eq_int oshd k then none else c)
Agrees-unassociate k oshd s c h i n (v, a, r) = (
  unassociate-IsValid s oshd v,
  ground (arith, view-unassociate s oshd k v h i n),
  ground (arith, registered-unassociate k oshd s n),
)

-- A request for the invalid handle changes nothing.
Agrees-skip :
    (k : ℤ) (s s' : Service) (c c' : Option ℕ) → s ≡ s' → c ≡ c' → Agrees k s c → Agrees k s' c'
Agrees-skip k s s' c c' p q g = subst (λ z. Agrees k z c') p (subst (Agrees k s) q g)

associate-invalid :
    (oshd : ℤ) (d : ℕ) (s : Service) → eq_int oshd invalid ≡ true → s ≡ associate oshd d s
associate-invalid oshd d s e = ground (arith, associate-put s oshd d)

unassociate-invalid : (oshd : ℤ) (s : Service) → eq_int oshd invalid ≡ true → s ≡ unassociate oshd s
unfolding unassociate
unassociate-invalid oshd s e = ground arith

other_handle :
    (k oshd : ℤ) → eq_int k invalid ≡ false → eq_int oshd invalid ≡ true → eq_int oshd k ≡ false
other_handle k oshd n e = ground (arith, eq_int_iff oshd k)

Agrees-serve :
    (k : ℤ) (r : Request) (s : Service) (c : Option ℕ)
    → HasInt r
    → IsInt k
    → eq_int k invalid ≡ false
    → Agrees k s c
    → Agrees k (serve r s) (connection_of k r c)
unfolding serve connection_of
Agrees-serve k (connected oshd d) s c h i n g = elim (Bool-cases (eq_int oshd invalid)) [
  | inl e ↦
      Agrees-skip k s _ c _ (associate-invalid oshd d s e) (ground (arith, other_handle k oshd n e))
        g
  | inr e ↦ Agrees-associate k oshd d s c h i e g
]
Agrees-serve k (gone oshd) s c h i n g = elim (Bool-cases (eq_int oshd invalid)) [
  | inl e ↦
      Agrees-skip k s _ c _ (unassociate-invalid oshd s e) (ground (arith, other_handle k oshd n e))
        g
  | inr e ↦ Agrees-unassociate k oshd s c h i e g
]

Agrees-serve_all :
    (k : ℤ) (rs : List Request) (s : Service) (c : Option ℕ)
    → All HasInt rs
    → IsInt k
    → eq_int k invalid ≡ false
    → Agrees k s c
    → Agrees k (serve_all rs s) (connection_after k rs c)
unfolding serve_all connection_after
Agrees-serve_all k [] s c h i n g = g
Agrees-serve_all k (r ∷ rs) s c h i n g =
    Agrees-serve_all k rs (serve r s) (connection_of k r c) h.1 i n (Agrees-serve k r s c h.0 i n g)

start-Agrees :
    (k : ℤ) (memory : List (Option ℕ))
    → length memory ≡ map_fast_size
    → ((i : ℕ) → get_or memory i none ≡ none)
    → Agrees k (start memory) none
unfolding start registered_after get make_entry find
start-Agrees k memory l z = (l, ground (arith, z (size_of_int k), eq_int_iff k k), refl)

-- A service whose fast map has its size and starts with null entries, after any sequence of `associate`
-- and `unassociate` with handles that are each an `int`: a handle that is not -1 maps to the connection
-- of its last request, or to null after an `unassociate` or without one, and the last call of `epoll_ctl`
-- for it is an ADD exactly when it maps to a connection.
pub map_and_epoll_agree :
    (rs : List Request) (memory : List (Option ℕ)) (k : ℤ)
    → length memory ≡ map_fast_size
    → ((i : ℕ) → get_or memory i none ≡ none)
    → All HasInt rs
    → IsInt k
    → eq_int k invalid ≡ false
    → (view (serve_all rs (start memory)) k ≡ connection_after k rs none)
      × (registered k (serve_all rs (start memory)) ≡ not (is_null (connection_after k rs none)))
map_and_epoll_agree rs memory k l z h i n =
    let (v, a, r) = Agrees-serve_all k rs (start memory) none h i n (start-Agrees k memory l z) in
    (a, r)
