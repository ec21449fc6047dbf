-- ===== src/PipeServer/Accept.antt =====
-- A client of a named pipe server: which connection gets which handle.
use hodgepodge.Prelude.{
  ℕ, ◌≡◌, refl, sym, ap, subst, ◌∙◌, inl, inr, Bool, true, false, List, [], ◌∷◌, Option, some,
  if◌then◌else◌, ℤ, pos, not, eq_int, arith, IsInt, Bool-cases,
}
use hodgepodge.SetUp.Opened.{without}
use hodgepodge.Ipc.{invalid, get}
use hodgepodge.Ipc.Handles.{view, IsValid, get-IsValid, put-IsValid, view-put, view-get}
use hodgepodge.PipeServer.{
  Call, create_event, create_port, add_to_port, create_pipe, open_pipe, close_handle, throw, Log,
  System, World, Outcome, returns, throws, asserts, M, ◌>>=◌, Pipe, associate, construct_from,
  listen, wait_for_connection, trigger_read, accept_client,
}

-- The last call of the system was to create a pipe or to add a handle to the port, and was refused.
abbrev pub refused : Log → Bool
refused [] = false
refused ((create_pipe n, r) ∷ log) = eq_int r invalid
refused ((add_to_port h, r) ∷ log) = not (eq_int r (pos 0))
refused ((c, r) ∷ log) = false

-- What holds where a function returns; it throws only where it is refused, and no assertion fails.
abbrev pub Returns : {A : Type 0} → (A → World → Type 0) → Outcome A → Type 0
Returns P (returns a w) = P a w
Returns P (throws w) = refused w.log ≡ true
Returns P (asserts w) = ⊥

-- The handles that are open.
abbrev pub gains : ℤ → List ℤ → List ℤ
gains r ds = if eq_int r invalid then ds else r ∷ ds

abbrev pub open_handles : Log → List ℤ
open_handles [] = []
open_handles ((create_event, r) ∷ log) = gains r (open_handles log)
open_handles ((create_port n, r) ∷ log) = gains r (open_handles log)
open_handles ((create_pipe n, r) ∷ log) = gains r (open_handles log)
open_handles ((open_pipe n, r) ∷ log) = gains r (open_handles log)
open_handles ((close_handle h, r) ∷ log) = without h (open_handles log)
open_handles ((c, r) ∷ log) = open_handles log

-- A function that returns leaves the service's map and the open handles as they were.
abbrev Quiet : World → World → Type 0
Quiet w w' = (w'.service ≡ w.service) × (open_handles w'.log ≡ open_handles w.log)

wait-Quiet :
    (os : System) (p : Pipe) (w : World)
    → eq_int p.oshd invalid ≡ false
    → Returns (λ r. Quiet w) (wait_for_connection os p w)
unfolding wait_for_connection
wait-Quiet os p w n = ground (arith, n)

trigger-Quiet :
    (os : System) (p : Pipe) (w : World)
    → p.cache_empty ≡ true
    → Returns (λ r. Quiet w) (trigger_read os p w)
unfolding trigger_read
trigger-Quiet os p w h = ground (arith, h)

-- What a step does to the entry of the handle `k` and to the open handles.
abbrev Effect : ℤ → Option ℕ → List ℤ → World → Type 0
Effect k c hs w = IsValid w.service × (view w.service k ≡ c) × (open_handles w.log ≡ hs)

associate-Effect :
    (os : System) (h k : ℤ) (self : ℕ) (w : World)
    → IsValid w.service
    → IsInt h
    → IsInt k
    → eq_int h invalid ≡ false
    → Returns
        (λ _. Effect k (if eq_int h k then some self else view w.service k) (open_handles w.log))
        (associate os h self w)
unfolding associate
associate-Effect os h k self w v i j n = ground (
  arith,
  get-IsValid w.service h v,
  put-IsValid h (some self) (get h w.service).0,
  view-put (get h w.service).0 h k (some self),
  view-get w.service h k,
)

-- The rule for a sequence.
Returns-bind :
    {A B : Type 0} (P : A → World → Type 0) (Q : B → World → Type 0) (m : M A) (f : A → M B)
    (w : World)
    → Returns P (m w)
    → ((a : A) (w' : World) → P a w' → Returns Q (f a w'))
    → Returns Q ((m >>= f) w)
Returns-bind P Q m f w h k = after (m w) h
  where
    after :
        (o : Outcome _)
        → Returns P o
        → Returns Q
            (elim o [ returns a w' ↦ f a w' | throws w' ↦ throws w' | asserts w' ↦ asserts w' ])
    after (returns a w') q = k a w' q
    after (throws w') q = q
    after (asserts w') q = q

Quiet-Effect :
    (k : ℤ) (c : Option ℕ) (hs : List ℤ) (w w' : World)
    → Quiet w w'
    → Effect k c hs w
    → Effect k c hs w'
Quiet-Effect k c hs w w' (s, o) (v, e, p) =
    (subst IsValid (sym s) v, ap (λ z. view z k) s ∙ e, o ∙ p)

abbrev Made : ℤ → World → ℕ → ℤ → System → Pipe → World → Type 0
Made k w self h os client w' =
    (client.oshd ≡ h)
    × (client.self ≡ self)
    × (client.event ≡ os w.log create_event)
    × (client.cache_empty ≡ true)
    × Effect k (if eq_int h k then some self else view w.service k)
        (gains (os w.log create_event) (open_handles w.log)) w'

construct_from-Made :
    (os : System) (h k : ℤ) (self : ℕ) (w : World)
    → IsValid w.service
    → IsInt h
    → IsInt k
    → eq_int h invalid ≡ false
    → Returns (Made k w self h os) (construct_from os self h w)
unfolding construct_from
construct_from-Made os h k self w v i j n =
    Returns-bind _ (Made k w self h os) (associate os h self) _ _
      (associate-Effect os h k self
        (record w { log = (create_event, os w.log create_event) ∷ w.log }) v i j n)
      (λ a w' q. (refl, refl, refl, refl, q))

not_thrown :
    {A : Type 0} (Q : A → World → Type 0) (b : Bool) (m : M A) (w : World)
    → b ≡ false
    → Returns Q (m w)
    → Returns Q ((if b then throw else m) w)
not_thrown Q true m w e h = cc
not_thrown Q false m w e h = h

thrown :
    {A : Type 0} (Q : A → World → Type 0) (b : Bool) (m : M A) (w : World)
    → b ≡ true
    → refused w.log ≡ true
    → Returns Q ((if b then throw else m) w)
thrown Q true m w e r = r
thrown Q false m w e r = cc

abbrev Listens : ℤ → World → Pipe → System → Pipe → World → Type 0
Listens k w p os p' w' =
    (p'.self ≡ p.self)
    × (p'.oshd ≡ os w.log (create_pipe p.name))
    × (eq_int p'.oshd invalid ≡ false)
    × Effect k (if eq_int p'.oshd k then some p.self else view w.service k)
        (p'.oshd ∷ open_handles w.log) w'

listen-Listens :
    (os : System) (p : Pipe) (k : ℤ) (w : World)
    → ((l : Log) (c : Call) → IsInt (os l c))
    → IsValid w.service
    → IsInt k
    → Returns (Listens k w p os) (listen os p w)
unfolding listen
listen-Listens os p k w ints v j = elim (Bool-cases (eq_int h invalid)) [
  | inl e ↦ thrown (Listens k w p os) (eq_int h invalid) _ w1 e e
  | inr n ↦ not_thrown (Listens k w p os) (eq_int h invalid) _ w1 n (
      Returns-bind _ (Listens k w p os) (associate os h p.self) _ w1
        (associate-Effect os h k p.self w1 v (ints w.log (create_pipe p.name)) j n)
        (λ _ w2 q.
          Returns-bind _ (Listens k w p os) (wait_for_connection os p1) _ w2 (wait-Quiet os p1 w2 n)
            (λ _ w3 s. (refl, refl, n, Quiet-Effect k _ _ w2 w3 s (opens w2 n q)))))
]
  where
    h : ℤ
    h = os w.log (create_pipe p.name)

    p1 : Pipe
    p1 = record p { oshd = h }

    w1 : World
    w1 = record w { log = (create_pipe p.name, h) ∷ w.log }

    opens :
        (w2 : World)
        → eq_int h invalid ≡ false
        → Effect k (if eq_int h k then some p.self else view w.service k) (open_handles w1.log) w2
        → Effect k
            (if eq_int h k then some p.self else view w.service k)
            (h ∷ open_handles w.log)
            w2
    opens w2 n (a, b, c) =
        (a, b, c ∙ ap (λ z. if z then open_handles w.log else h ∷ open_handles w.log) n)

-- A client is accepted: the new connection and what becomes of the server, the map and the handles.
abbrev pub Accepts : ℤ → World → ℕ → Pipe → System → Pipe × Option Pipe → World → Type 0
Accepts k w self p os (p', client) w' =
    (c : Pipe) × (client ≡ some c)
    × (c.oshd ≡ p.oshd)
    × (c.self ≡ self)
    × (p'.self ≡ p.self)
    × (eq_int p'.oshd invalid ≡ false)
    × Effect k
        (if eq_int p'.oshd k
          then some p.self
          else if eq_int p.oshd k
          then some self
          else view w.service k)
        (p'.oshd ∷ gains c.event (open_handles w.log)) w'

-- Where the system gives numbers that are each an `int`, the service's fast map has its size and the server has
-- a handle that is an `int` and not -1: with `on_accept` set, `notify` for a client fails no assertion; it
-- throws only where the system has just refused to create a pipe or to add a handle to the port; and
-- if it returns, it has given the handle of the server to a new connection and a new handle to the server; no other entry of the
-- service's map has changed; and of the handles that it opened, the new pipe and the event of the new
-- connection stay open, and no handle that was open is closed.
pub accept_client-Accepts :
    (os : System) (self : ℕ) (p : Pipe) (k : ℤ) (w : World)
    → ((l : Log) (c : Call) → IsInt (os l c))
    → IsValid w.service
    → IsInt p.oshd
    → IsInt k
    → eq_int p.oshd invalid ≡ false
    → Returns (Accepts k w self p os) (accept_client os true self p w)
unfolding accept_client
accept_client-Accepts os self p k w ints v i j n =
    Returns-bind (Made k w self p.oshd os) Q (construct_from os self p.oshd) _ w
      (construct_from-Made os p.oshd k self w v i j n)
      (λ c w1 (co, cs, ce, untouched, (v1, e1, o1)).
        Returns-bind (Listens k w1 p os) Q (listen os p) _ w1 (listen-Listens os p k w1 ints v1 j)
          (λ p' w2 (ps, po, pn, q2).
            Returns-bind (λ _. Quiet w2) Q (wait_for_connection os p') _ w2 (wait-Quiet os p' w2 pn)
              (λ _ w3 s3.
                Returns-bind (λ _. Quiet w3) Q (trigger_read os c) _ w3
                  (trigger-Quiet os c w3 untouched)
                  (λ _ w4 s4.
                    let (v4, e4, o4) =
                      Quiet-Effect k _ _ w3 w4 s4 (Quiet-Effect k _ _ w2 w3 s3 q2) in
                    (
                      c,
                      refl,
                      co,
                      cs,
                      ps,
                      pn,
                      (
                        v4,
                        e4 ∙ ap (λ z. if eq_int p'.oshd k then some p.self else z) e1,
                        o4
                            ∙ ap (λ z. p'.oshd ∷ z)
                                (o1 ∙ ap (λ z. gains z (open_handles w.log)) (sym ce)),
                      ),
                    )))))
  where
    Q : Pipe × Option Pipe → World → Type 0
    Q = Accepts k w self p os
