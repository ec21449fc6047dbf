-- ===== src/Exchange/Server.antt =====
-- The server's side of the test: what it compares, and what it accepts.
use mathlib.Core.List.{append_assoc, append-nil}
use hodgepodge.Prelude.{
  ℕ, zero, suc, ◌+◌, ◌-◌, ◌≤◌, ◌<◌, ◌≡◌, refl, sym, ap, ◌∙◌, inl, inr, Bool-cases, true, false,
  List, [], ◌∷◌, ◌++◌, some, ltb, ==_iff, length, take, drop, arith, pos, All, take-append,
  drop-append, length-append, ℤ,
}
use hodgepodge.Socket.{ReadReply}
use hodgepodge.Socket.Read.{payload, Obeys, IsCalm}
use hodgepodge.Uds
use hodgepodge.Uds.{ReadEnd, success, invalid, failed, overwrite}
use hodgepodge.Uds.Calm.{Gets, read-Gets}
use hodgepodge.Exchange.{client_loop, char_of, compare_block, block, server_loop, numbers}
use hodgepodge.Exchange.Clock.{timed, report-same}
use hodgepodge.Exchange.Client.{length-numbers, client_loop-numbers, numbers-append, same_numbers}

-- A block of the right characters passes the comparison.
pub compare_block-numbers :
    (total n id : ℕ) → id + n ≤ total → compare_block total (numbers id n) id ≡ some (id + n)
unfolding compare_block numbers
compare_block-numbers total zero id h = ap some (omega arith)
compare_block-numbers total (suc n) id h = ground (
  arith,
  compare_block-numbers total n (suc id) (omega arith),
  (==_iff (char_of id) (char_of id)).1 refl,
)

length-overwrite : (xs ys : List ℕ) → length (overwrite xs ys) ≡ length xs
unfolding overwrite
length-overwrite xs [] = refl
length-overwrite [] (y ∷ ys) = refl
length-overwrite (x ∷ xs) (y ∷ ys) = ap suc (length-overwrite xs ys)

take-overwrite : (xs ys : List ℕ) → length ys ≤ length xs → take (length ys) (overwrite xs ys) ≡ ys
unfolding overwrite
take-overwrite xs [] h = refl
take-overwrite [] (y ∷ ys) h = absurd (omega arith)
take-overwrite (x ∷ xs) (y ∷ ys) h = ap (◌∷◌ y) (take-overwrite xs ys (omega arith))

get-Gets :
    (fd n : ℕ) (rs : List ReadReply)
    → 0 < n
    → Obeys n rs
    → All IsCalm rs
    → n ≤ length (payload rs)
    → (d : ReadEnd) × (Uds.read false (pos (suc fd)) true (pos n) rs ≡ some d) × Gets n [] rs d
get-Gets fd zero rs p o c h = absurd (omega arith)
get-Gets fd (suc n) rs p o c h = read-Gets fd n rs o c h

-- Each `read` of the server gets no more from a call than it asks for.
abbrev pub Serves : ℕ → List ℕ → ℕ → ℕ → List ReadReply → Type 0
Serves fd [] total id rs = Unit
Serves fd (ms ∷ clock) total id rs =
    ltb id total ≡ true
    → Obeys (block total id) rs
      × ((d : ReadEnd)
          → Uds.read false (pos (suc fd)) true (pos (block total id)) rs ≡ some d
          → Serves fd clock total (id + block total id) d.rest)

pub block_size :
    (total id : ℕ)
    → ltb id total ≡ true
    → (0 < block total id) × (block total id ≤ total - id) × (block total id ≤ 1024)
block_size total id more = ground arith

split_numbers :
    (id n m : ℕ) (more : List ℕ)
    → n ≤ m
    → numbers id m ++ more ≡ numbers id n ++ (numbers (id + n) (m - n) ++ more)
split_numbers id n m more h =
    ap (λ z. z ++ more)
      (same_numbers id id m (n + (m - n)) refl (omega arith) ∙ sym (numbers-append id n (m - n)))
    ∙ append_assoc (numbers id n) (numbers (id + n) (m - n)) more

pub take-numbers :
    (id n m : ℕ) (more : List ℕ) → n ≤ m → take n (numbers id m ++ more) ≡ numbers id n
take-numbers id n m more h =
    ap (take n) (split_numbers id n m more h)
    ∙ take-append n (numbers id n) _ (omega (arith, length-numbers id n))
    ∙ ap (λ k. numbers id n ++ take k (numbers (id + n) (m - n) ++ more)) {y = 0}
        (omega (arith, length-numbers id n))
    ∙ append-nil (numbers id n)

drop-numbers :
    (id n m : ℕ) (more : List ℕ)
    → n ≤ m
    → drop n (numbers id m ++ more) ≡ numbers (id + n) (m - n) ++ more
drop-numbers id n m more h =
    ap (drop n) (split_numbers id n m more h)
    ∙ drop-append n (numbers id n) _ (omega (arith, length-numbers id n))
    ∙ ap (λ k. drop k (numbers (id + n) (m - n) ++ more)) {y = 0}
        (omega (arith, length-numbers id n))

server_loop-timed :
    (fd : ℕ) (clock : List ℕ) (total id : ℕ) (ms0 : ℤ) (buffer more : List ℕ) (rs : List ReadReply)
    → Serves fd clock total id rs
    → All IsCalm rs
    → payload rs ≡ numbers id (total - id) ++ more
    → length buffer ≡ 1024
    → server_loop (pos (suc fd)) clock total id ms0 buffer rs ≡ timed total clock id ms0
unfolding server_loop
server_loop-timed fd [] total id ms0 buffer more rs v c p b = refl
server_loop-timed fd (ms ∷ clock) total id ms0 buffer more rs v c p b =
    elim (Bool-cases (ltb id total)) [
      | inr done ↦ rw (done, server_loop) refl
      | inl left ↦
          let (d, e, (s, t, q, calm)) =
            get-Gets fd len rs (block_size total id left).0 (v left).0 c (
              omega (
                arith,
                (block_size total id left).1,
                ap length p,
                length-append (numbers id (total - id)) more,
                length-numbers id (total - id),
              )) in
          let stored =
            t
            ∙ ap (take len) p
            ∙ take-numbers id len (total - id) more (block_size total id left).1 in
          let rest =
            q
            ∙ ap (drop len) p
            ∙ drop-numbers id len (total - id) more (block_size total id left).1 in
          let enough = ap length stored ∙ length-numbers id len in
          let filled =
            ap (λ k. take k (overwrite buffer d.stored)) (sym enough)
            ∙ take-overwrite buffer d.stored (omega (arith, (block_size total id left).2))
            ∙ stored in
          let same =
            ap (λ z. compare_block total z id) filled
            ∙ compare_block-numbers total len id
                (omega (arith, (block_size total id left).0, (block_size total id left).1)) in
          rw (left, e, s, same, server_loop)
            (report-same total (id + len) ms ms0
              (λ m.
                server_loop (pos (suc fd)) clock total (id + len) m (overwrite buffer d.stored)
                  d.rest)
              (timed total clock (id + len))
              (λ m.
                server_loop-timed fd clock total (id + len) m (overwrite buffer d.stored) more
                  d.rest ((v left).1 d e) calm
                  (rest ∙ ap (λ z. z ++ more) (same_numbers _ _ _ _ refl (omega arith)))
                  (length-overwrite buffer d.stored ∙ b)))
    ]
  where
    len : ℕ
    len = block total id

-- On what the client's side writes, the clock alone says how the server's side ends.
pub exchange-timed :
    (fd : ℕ) (clock : List ℕ) (total : ℕ) (rands buffer bytes : List ℕ) (rs : List ReadReply)
    → client_loop total rands 0 ≡ some bytes
    → payload rs ≡ bytes
    → All IsCalm rs
    → Serves fd clock total 0 rs
    → length buffer ≡ 1024
    → server_loop (pos (suc fd)) clock total 0 (pos 0) buffer rs ≡ timed total clock 0 (pos 0)
exchange-timed fd clock total rands buffer bytes rs sends arrives calm obeys b =
    server_loop-timed fd clock total 0 (pos 0) buffer [] rs obeys calm
      (arrives
        ∙ client_loop-numbers total rands 0 bytes sends
        ∙ sym (append-nil (numbers 0 (total - 0))))
      b
