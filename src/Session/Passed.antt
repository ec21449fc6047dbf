-- ===== src/Session/Passed.antt =====
-- A test from the client's side to the server's.
use hodgepodge.Prelude.{
  ℕ, suc, replicate, ◌≤◌, ◌^◌, ◌<◌, ◌≡◌, refl, sym, ap, ◌∙◌, Option-cases, inl, inr, true, false,
  List, [], ◌∷◌, ◌++◌, some, length, length-append, take, drop, All, arith, pos, int_of_size,
  int_of_size-small,
}
use mathlib.Core.Option.{some-injective}
use hodgepodge.Socket.{ReadReply, got, to_count}
use hodgepodge.Socket.Read.{payload, Obeys, IsCalm}
use hodgepodge.Uds
use hodgepodge.Uds.{ReadEnd, success, overwrite}
use hodgepodge.Uds.Calm.{read-Gets}
use hodgepodge.Exchange.{Verdict, client_loop, server_loop, passed, undefined}
use hodgepodge.Exchange.Clock.{timed, Timed, timed-passed, timed-undefined}
use hodgepodge.Exchange.Server.{Serves, exchange-timed}
use hodgepodge.Session.{
  bytes_of, value_of, request, client_session, server_tst1, no_error, tested, on_read,
}

value_of-bytes_of : (n : ℕ) → n < 2 ^ 31 → int_of_size (value_of (bytes_of n)) ≡ pos n
value_of-bytes_of n h = ap int_of_size (digits n h) ∙ int_of_size-small n h
  where
    digits : (m : ℕ) → m < 2 ^ 31 → value_of (bytes_of m) ≡ m
    digits m k = omega arith

overwrite_four : (n : ℕ) → overwrite (0 ∷ 0 ∷ 0 ∷ 0 ∷ []) (bytes_of n) ≡ bytes_of n
unfolding overwrite
overwrite_four n = refl

-- What comes after the request: the total and the characters.
abbrev pub Arrives : ℕ → List ℕ → ℕ → List ReadReply → Type 0
Arrives fd clock total rs =
    All IsCalm rs
    × Obeys 4 rs
    × ((d : ReadEnd)
        → Uds.read false (pos (suc fd)) true (pos 4) rs ≡ some d
        → Serves fd clock total 0 d.rest)

server_tst1-timed :
    (fd : ℕ) (clock : List ℕ) (total : ℕ) (rands buffer bytes : List ℕ) (rs : List ReadReply)
    → client_loop total rands 0 ≡ some bytes
    → total < 2 ^ 31
    → payload rs ≡ bytes_of total ++ bytes
    → Arrives fd clock total rs
    → length buffer ≡ 1024
    → server_tst1 (pos (suc fd)) clock buffer rs ≡ timed total clock 0 (pos 0)
unfolding server_tst1
server_tst1-timed fd clock total rands buffer bytes rs sends small p (calm, obeys, serves) b =
    let (d, e, (s, t, q, rest)) =
      read-Gets fd 3 rs obeys calm
        (omega (arith, ap length p, length-append (bytes_of total) bytes)) in
    let stored = t ∙ ap (take 4) p in
    let total_read =
      ap (λ z. to_count (int_of_size (value_of (overwrite (0 ∷ 0 ∷ 0 ∷ 0 ∷ []) z)))) stored
      ∙ ap (λ z. to_count (int_of_size (value_of z))) (overwrite_four total)
      ∙ ap to_count (value_of-bytes_of total small) in
    rw (e, server_tst1)
      (ap (λ k. server_loop (pos (suc fd)) clock k 0 (pos 0) buffer d.rest) total_read
        ∙ exchange-timed fd clock total rands buffer bytes d.rest sends (q ∙ ap (drop 4) p) rest
            (serves d e) b)

-- On what the client's side writes, the clock alone says how the callback ends.
on_read-timed :
    (fd : ℕ) (clock : List ℕ) (total : ℕ) (rands buffer sent : List ℕ) (rs : List ReadReply)
    (v : Verdict)
    → client_session total rands ≡ some sent
    → total < 2 ^ 31
    → payload (got request ∷ rs) ≡ sent
    → Arrives fd clock total rs
    → length buffer ≡ 1024
    → timed total clock 0 (pos 0) ≡ some v
    → on_read (pos (suc fd)) clock no_error buffer (got request ∷ rs) ≡ some (tested v)
unfolding client_session on_read Uds.read Uds.read_loop
on_read-timed fd clock total rands buffer sent rs v session small p a b ends =
    elim (Option-cases (client_loop total rands 0)) [
      | inl short ↦ absurd (cc (rw (short, client_session) at session))
      | inr (bytes, sends) ↦
          let whole = some-injective _ _ (rw (sends, client_session) at session) in
          let follows = ap (drop 4) (p ∙ sym whole) in
          rw
            (
              server_tst1-timed fd clock total rands buffer bytes rs sends small follows a b ∙ ends,
              on_read,
            )
            refl
    ]

-- The whole test: where what the client's side writes arrives in calls that meet no error, the request in one
-- piece, and the clock has a reading below 2048 ms for each block, the one after the last block not 0, the
-- server's callback ends with a test that has passed.
pub on_read-passed :
    (fd : ℕ) (clock : List ℕ) (total : ℕ) (rands buffer sent : List ℕ) (rs : List ReadReply)
    → client_session total rands ≡ some sent
    → total < 2 ^ 31
    → payload (got request ∷ rs) ≡ sent
    → Arrives fd clock total rs
    → length buffer ≡ 1024
    → Timed total clock 0
    → on_read (pos (suc fd)) clock no_error buffer (got request ∷ rs) ≡ some (tested passed)
on_read-passed fd clock total rands buffer sent rs session small p a b c =
    on_read-timed fd clock total rands buffer sent rs passed session small p a b
      (timed-passed total clock 0 0 c)

-- A test of at least one and fewer than 2^31 characters within a millisecond: where what the client's side writes
-- arrives in calls that meet no error, the request in one piece, the buffer has 1024 bytes, and every reading of
-- the clock is 0, the output after the last block divides by 0.
pub on_read-undefined :
    (fd n total : ℕ) (rands buffer sent : List ℕ) (rs : List ReadReply)
    → client_session total rands ≡ some sent
    → 0 < total
    → total < 2 ^ 31
    → total ≤ n
    → payload (got request ∷ rs) ≡ sent
    → Arrives fd (replicate n 0) total rs
    → length buffer ≡ 1024
    → on_read (pos (suc fd)) (replicate n 0) no_error buffer (got request ∷ rs)
      ≡ some (tested undefined)
on_read-undefined fd n total rands buffer sent rs session some_byte small enough p a b =
    on_read-timed fd (replicate n 0) total rands buffer sent rs undefined session small p a b
      (timed-undefined total n 0 some_byte (omega arith))
