-- ===== src/Socket/Read.antt =====
-- `readSocket`: what it returns, and that no byte is lost, repeated or reordered.
use mathlib.Core.List.{append_assoc, append-nil}
use hodgepodge.Prelude.{
  ℕ, zero, suc, ◌+◌, ◌-◌, ◌≤◌, ◌<◌, ◌≡◌, refl, sym, ap, ◌∙◌, inl, inr, true, false, List, [], ◌∷◌,
  ◌++◌, some, arith, length, length-append, take, take-append, pos, All, Bool-cases,
}
use mathlib.Core.Option.{some-injective}
use hodgepodge.Socket.{
  Errno, is_transient, failure, ReadReply, got, read_failed, ReadDone, read_loop, read_socket,
}

-- The bytes of a list of answers, in order.
abbrev pub payload : List ReadReply → List ℕ
payload [] = []
payload (got bs ∷ rs) = bs ++ payload rs
payload (read_failed e ∷ rs) = payload rs

-- What `read` documents: no answer stores more bytes than it was asked for, while some are wanted.
abbrev pub Obeys : ℕ → List ReadReply → Type 0
Obeys zero rs = Unit
Obeys (suc l) [] = Unit
Obeys (suc l) (got bs ∷ rs) = (length bs ≤ suc l) × Obeys (suc l - length bs) rs
Obeys (suc l) (read_failed e ∷ rs) = Obeys (suc l) rs

-- Neither the end of the file nor an error that ends the transfer.
abbrev pub IsCalm : ReadReply → Type 0
IsCalm (got []) = ⊥
IsCalm (got (b ∷ bs)) = Unit
IsCalm (read_failed e) = is_transient e ≡ true

-- The answer that ends a transfer is the last one that it uses; the others bring bytes or are tried again.
abbrev pub StopsAt : ReadReply → List ReadReply → List ReadReply → Type 0
StopsAt last rs rest = (used : List ReadReply) × All IsCalm used × (rs ≡ used ++ last ∷ rest)

-- How a transfer of `n` bytes ends that meets these answers.
pub data Ends (n : ℕ) (rs : List ReadReply) (d : ReadDone) : Type 0 where
  full : d.ret ≡ pos n → length d.stored ≡ n → Ends n rs d
  end_of_file : d.ret ≡ pos 0 → length d.stored < n → StopsAt (got []) rs d.rest → Ends n rs d
  broken :
      (e : Errno)
      → is_transient e ≡ false
      → d.ret ≡ failure
      → length d.stored < n
      → StopsAt (read_failed e) rs d.rest
      → Ends n rs d

-- One more answer before the others.
StopsAt-later :
    (r last : ReadReply) (rs rest : List ReadReply)
    → IsCalm r
    → StopsAt last rs rest
    → StopsAt last (r ∷ rs) rest
StopsAt-later r last rs rest c (used, calm, e) = (r ∷ used, (c, calm), ap (◌∷◌ r) e)

Ends-later :
    (n : ℕ) (r : ReadReply) (rs : List ReadReply) (d : ReadDone)
    → IsCalm r
    → Ends n rs d
    → Ends n (r ∷ rs) d
Ends-later n r rs d c (full e k) = full e k
Ends-later n r rs d c (end_of_file e k s) = end_of_file e k (StopsAt-later r (got []) rs d.rest c s)
Ends-later n r rs d c (broken x f e k s) =
    broken x f e k (StopsAt-later r (read_failed x) rs d.rest c s)

read_loop-Ends :
    (n left : ℕ) (stored : List ℕ) (rs : List ReadReply) (d : ReadDone)
    → length stored + left ≡ n
    → Obeys left rs
    → read_loop n left stored rs ≡ some d
    → Ends n rs d × (d.stored ++ payload d.rest ≡ stored ++ payload rs)
unfolding read_loop
read_loop-Ends n zero stored rs d e o r = (full (ground arith) (ground arith), ground arith)
read_loop-Ends n (suc l) stored [] d e o r = cc
read_loop-Ends n (suc l) stored (got [] ∷ rs) d e o r =
    let p = some-injective _ d r in
    (end_of_file (ground arith) (ground arith) ([], tt, ap (λ z. got [] ∷ z.rest) p), ground arith)
read_loop-Ends n (suc l) stored (got (b ∷ bs) ∷ rs) d e o r =
    let (ending, kept) =
      read_loop-Ends n (suc l - length (b ∷ bs)) (stored ++ b ∷ bs) rs d
        (omega (arith, length-append stored (b ∷ bs), o.0)) o.1 r in
    (Ends-later n (got (b ∷ bs)) rs d tt ending, kept ∙ append_assoc stored (b ∷ bs) (payload rs))
read_loop-Ends n (suc l) stored (read_failed x ∷ rs) d e o r = elim (Bool-cases (is_transient x)) [
  | inl again ↦
      let (ending, kept) = read_loop-Ends n (suc l) stored rs d e o (rw (again, read_loop) at r) in
      (Ends-later n (read_failed x) rs d again ending, kept)
  | inr fatal ↦
      let p = some-injective _ d (rw (fatal, read_loop) at r) in
      (
        broken x fatal (ground (arith, fatal)) (ground (arith, fatal))
            ([], tt, ap (λ z. read_failed x ∷ z.rest) p),
        ground (arith, fatal),
      )
]

-- A call of `readSocket` with a socket, a buffer and a size n above 0, on a system that never stores
-- more than it was asked for: where the call returns, it has stored n bytes and returns n; or it has
-- stored fewer, the last answer that it used is the end of the file, and it returns 0; or it has stored
-- fewer, that answer is an error that is not tried again, and it returns -1. The answers before that one
-- bring bytes or are tried again. What is stored, followed by what the unused answers hold, is what all
-- the answers hold, in order.
pub read_socket-Ends :
    (socket n : ℕ) (rs : List ReadReply) (d : ReadDone)
    → Obeys (suc n) rs
    → read_socket (pos (suc socket)) true (pos (suc n)) rs ≡ some d
    → Ends (suc n) rs d × (d.stored ++ payload d.rest ≡ payload rs)
unfolding read_socket
read_socket-Ends socket n rs d o r = read_loop-Ends (suc n) (suc n) [] rs d (omega arith) o r

read_loop-calm :
    (n left : ℕ) (stored : List ℕ) (rs : List ReadReply)
    → Obeys left rs
    → All IsCalm rs
    → left ≤ length (payload rs)
    → (d : ReadDone) × (read_loop n left stored rs ≡ some d)
      × (d.ret ≡ pos n)
      × (d.stored ≡ stored ++ take left (payload rs))
unfolding read_loop
read_loop-calm n zero stored rs o c h = (_, refl, ground arith, sym (append-nil stored))
read_loop-calm n (suc l) stored [] o c h = absurd (omega arith)
read_loop-calm n (suc l) stored (got [] ∷ rs) o c h = absurd c.0
read_loop-calm n (suc l) stored (got (b ∷ bs) ∷ rs) o c h =
    let (d, e, r, st) =
      read_loop-calm n (suc l - length (b ∷ bs)) (stored ++ b ∷ bs) rs o.1 c.1
        (omega (arith, length-append (b ∷ bs) (payload rs), h)) in
    (
      d,
      e,
      r,
      st
          ∙ append_assoc stored (b ∷ bs) _
          ∙ ap (◌++◌ stored) (sym (take-append (suc l) (b ∷ bs) (payload rs) o.0)),
    )
read_loop-calm n (suc l) stored (read_failed x ∷ rs) o c h =
    rw (c.0, read_loop) (read_loop-calm n (suc l) stored rs o c.1 h)

-- A call of `readSocket` returns, with n and the first n bytes that the system offers, if the answers hold at
-- least n bytes and none of them is the end of the file or an error that ends the transfer.
pub read_socket-calm :
    (socket n : ℕ) (rs : List ReadReply)
    → Obeys (suc n) rs
    → All IsCalm rs
    → suc n ≤ length (payload rs)
    → (d : ReadDone) × (read_socket (pos (suc socket)) true (pos (suc n)) rs ≡ some d)
      × (d.ret ≡ pos (suc n))
      × (d.stored ≡ take (suc n) (payload rs))
unfolding read_socket
read_socket-calm socket n rs o c h = read_loop-calm (suc n) (suc n) [] rs o c h
