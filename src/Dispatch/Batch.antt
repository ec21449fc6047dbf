-- ===== src/Dispatch/Batch.antt =====
-- A batch of reports of `epoll_wait`, and the connections that are notified.
use hodgepodge.Prelude.{
  ℕ, ◌≡◌, refl, sym, ap, ◌∙◌, true, false, List, [], ◌∷◌, ◌++◌, map, Option, none, some, get_or,
  All, inl, inr, Option-cases, ℤ, arith, length, IsInt, eq_int,
}
use hodgepodge.Ipc.{
  Service, invalid, map_fast_size, get, make_entry, is_null, start, Request, connected, gone, serve,
  serve_all,
}
use hodgepodge.Ipc.Handles.{view, find-make_entry}
use hodgepodge.Ipc.Registered.{
  registered, connection_of, connection_after, HasInt, map_and_epoll_agree,
}
use hodgepodge.Dispatch.{Event, run_batch}

-- A lookup that finds a connection changes nothing.
pub get-found : (k : ℤ) (s : Service) (c : ℕ) → view s k ≡ some c → get k s ≡ (s, some c)
unfolding get make_entry
get-found k s c e = ground (arith, find-make_entry k k s.map)

pub serve_all-append :
    (rs qs : List Request) (s : Service) → serve_all (rs ++ qs) s ≡ serve_all qs (serve_all rs s)
unfolding serve_all
serve_all-append [] qs s = refl
serve_all-append (r ∷ rs) qs s = serve_all-append rs qs (serve r s)

connection_after-append :
    (k : ℤ) (rs qs : List Request) (c : Option ℕ)
    → connection_after k (rs ++ qs) c ≡ connection_after k qs (connection_after k rs c)
unfolding connection_after
connection_after-append k [] qs c = refl
connection_after-append k (r ∷ rs) qs c = connection_after-append k rs qs (connection_of k r c)

-- A request that does not take the handle out.
abbrev pub Keeps : ℤ → Request → Type 0
Keeps k (connected oshd d) = Unit
Keeps k (gone oshd) = eq_int oshd k ≡ false

kept :
    (k : ℤ) (qs : List Request) (c : Option ℕ)
    → All (Keeps k) qs
    → is_null c ≡ false
    → is_null (connection_after k qs c) ≡ false
unfolding connection_after connection_of
kept k [] c h n = n
kept k (connected oshd d ∷ qs) c h n = kept k qs _ h.1 (ground arith)
kept k (gone oshd ∷ qs) c h n = kept k qs _ h.1 (ground (arith, h.0))

-- The handle of a report is an `int` and not -1, and so are those of the requests an `int`.
abbrev pub IsReport : Event → Type 0
IsReport e = IsInt e.fd × (eq_int e.fd invalid ≡ false) × All HasInt e.asked

-- No callback takes out the handle of a later report of the batch.
abbrev pub Undisturbed : List Event → Type 0
Undisturbed [] = Unit
Undisturbed (e ∷ es) = All (λ f. All (Keeps f.fd) e.asked) es × Undisturbed es

-- The reference: each report is for the connection of the last request for its handle.
unfoldable pub notified : List Request → List Event → List (Option ℕ)
notified rs [] = []
notified rs (e ∷ es) = connection_after e.fd rs none ∷ notified (rs ++ e.asked) es

abbrev Known : List Request → Event → Type 0
Known rs e = is_null (connection_after e.fd rs none) ≡ false

still-Known :
    (rs qs : List Request) (es : List Event)
    → All (λ f. All (Keeps f.fd) qs) es
    → All (Known rs) es
    → All (Known (rs ++ qs)) es
still-Known rs qs [] h k = tt
still-Known rs qs (e ∷ es) h k = (
  ap is_null (connection_after-append e.fd rs qs none) ∙ kept e.fd qs _ h.0 k.0,
  still-Known rs qs es h.1 k.1,
)

All-append : (rs qs : List Request) → All HasInt rs → All HasInt qs → All HasInt (rs ++ qs)
All-append [] qs h k = k
All-append (r ∷ rs) qs h k = (h.0, All-append rs qs h.1 k)

cons_same : {x y : Option ℕ} {xs ys : List (Option ℕ)} → x ≡ y → ys ≡ xs → y ∷ ys ≡ x ∷ xs
cons_same p q = cc

run_batch-cons :
    (e : Event) (es : List Event) (s last : Service) (c : ℕ) (cs : List ℕ)
    → get e.fd s ≡ (s, some c)
    → run_batch es (serve_all e.asked s) ≡ some (cs, last)
    → run_batch (e ∷ es) s ≡ some (c ∷ cs, last)
unfolding run_batch
run_batch-cons e es s last c cs g r = ground (arith, g, r)

module _ (memory : List (Option ℕ)) (size : length memory ≡ map_fast_size)
    (clear : (i : ℕ) → get_or memory i none ≡ none) where
  batch-Known :
      (es : List Event) (rs : List Request)
      → All HasInt rs
      → All IsReport es
      → Undisturbed es
      → All (Known rs) es
      → (cs : List ℕ) × (last : Service) × (run_batch es (serve_all rs (start memory))
          ≡ some (cs, last))
        × (map some cs ≡ notified rs es)
  unfolding run_batch notified
  batch-Known [] rs h r u k = ([], serve_all rs (start memory), refl, refl)
  batch-Known (e ∷ es) rs h ((i, n, q), r) (u, us) (k, ks) =
      elim (Option-cases (connection_after e.fd rs none)) [
        | inl missing ↦ absurd (cc (ap is_null missing))
        | inr (c, there) ↦
            let (cs, last, runs, same) =
              batch-Known es (rs ++ e.asked) (All-append rs e.asked h q) r us
                (still-Known rs e.asked es u ks) in
            let s = serve_all rs (start memory) in
            let (found, reg) = map_and_epoll_agree rs memory e.fd size clear h i n in
            (
              c ∷ cs,
              last,
              run_batch-cons e es s last c cs (get-found e.fd s c (found ∙ there))
                  (ap (run_batch es) (sym (serve_all-append rs e.asked (start memory))) ∙ runs),
              cons_same there same,
            )
      ]

  registered-Known :
      (rs : List Request) (es : List Event)
      → All HasInt rs
      → All IsReport es
      → All (λ e. registered e.fd (serve_all rs (start memory)) ≡ true) es
      → All (Known rs) es
  registered-Known rs [] h r g = tt
  registered-Known rs (e ∷ es) h ((i, n, q), r) (g, gs) =
      let (found, reg) = map_and_epoll_agree rs memory e.fd size clear h i n in
      (ground (arith, sym reg ∙ g), registered-Known rs es h r gs)

  -- A service whose fast map starts with its size and null entries, after any requests: for a batch of
  -- reports for handles that are in the epoll set, where no callback takes out the handle of a
  -- later report of the batch, and handles are each an `int`, no assertion fails, and the
  -- connections notified are, in order, those of the last requests for the reported handles.
  pub run_batch-notified :
      (rs : List Request) (es : List Event)
      → All HasInt rs
      → All IsReport es
      → Undisturbed es
      → All (λ e. registered e.fd (serve_all rs (start memory)) ≡ true) es
      → (cs : List ℕ) × (last : Service) × (run_batch es (serve_all rs (start memory))
          ≡ some (cs, last))
        × (map some cs ≡ notified rs es)
  run_batch-notified rs es h r u g = batch-Known es rs h r u (registered-Known rs es h r g)
