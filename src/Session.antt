-- ===== src/Session.antt =====
-- tipc.cpp, `main`: what the server does when a client has sent something, on Unix sockets, and what the
-- client sends for a test.
pub mod Passed
use hodgepodge.Prelude.{
  ℕ, zero, suc, ◌+◌, ◌-◌, ◌*◌, ◌/◌, ◌%◌, ◌^◌, Bool, true, false, ◌&&◌, List, [], ◌∷◌, ◌++◌, Option,
  none, some, if◌then◌else◌, ◌==◌, length, ℤ, pos, int_of_size,
}
use hodgepodge.Socket.{ReadReply, to_count}
use hodgepodge.Uds
use hodgepodge.Uds.{success, invalid, failed, overwrite}
use hodgepodge.Exchange.{Verdict, client_loop, server_loop}

-- The four bytes of an `int`, the low one first, and the `int` of four bytes.
abbrev pub bytes_of : ℕ → List ℕ
bytes_of n = n % 256 ∷ n / 256 % 256 ∷ n / 65536 % 256 ∷ n / 16777216 % 256 ∷ []

abbrev pub value_of : List ℕ → ℕ
value_of [] = 0
value_of (b ∷ bs) = b + 256 * value_of bs

-- `tst1`
abbrev pub request : List ℕ
request = 116 ∷ 115 ∷ 116 ∷ 49 ∷ []

-- What the client writes for `tst1`, with what `rand()` gives.
unfoldable pub client_session : ℕ → List ℕ → Option (List ℕ)
client_session total rands = elim (client_loop total rands 0) [
  | none ↦ none
  | some bytes ↦ some (request ++ (bytes_of total ++ bytes))
]

-- `server_tst1`, which reads the total and does not look at how that ends; the clock starts after that.
unfoldable pub server_tst1 : ℤ → List ℕ → List ℕ → List ReadReply → Option Verdict
unfolding overwrite
server_tst1 fd clock buffer rs = elim (Uds.read false fd true (pos 4) rs) [
  | none ↦ none
  | some e ↦
      let total = int_of_size (value_of (overwrite (0 ∷ 0 ∷ 0 ∷ 0 ∷ []) e.stored)) in
      server_loop fd clock (to_count total) 0 (pos 0) buffer e.rest
]

-- What `on_read` is told, and what it does: it returns, it throws, it makes the test or it answers.
pub data Told : Type 0 where
  no_error aborted other_error : Told

pub data Answer : Type 0 where
  returned thrown replied : Answer
  tested : Verdict → Answer

abbrev pub same_bytes : List ℕ → List ℕ → Bool
same_bytes [] [] = true
same_bytes (x ∷ xs) (y ∷ ys) = (x == y) && same_bytes xs ys
same_bytes [] (y ∷ ys) = false
same_bytes (x ∷ xs) [] = false

-- What is not a request for the test: the rest of what is there is read, and then one more byte.
unfoldable pub read_rest : ℤ → ℕ → List ReadReply → Option Answer
read_rest fd len rs = elim (Uds.read true fd true (pos (1024 - len)) rs) [
  | none ↦ none
  | some e ↦ elim e.status [
    | success ↦ elim (Uds.read false fd true (pos 1) e.rest) [
      | none ↦ none
      | some e' ↦ elim e'.status [
        | success ↦ some replied
        | invalid ↦ some returned
        | failed x ↦ some returned
      ]
    ]
    | invalid ↦ some returned
    | failed x ↦ some returned
  ]
]

-- `on_read` of the server, by the answers that its reads get and the readings of the clock in a test; `buffer` is
-- the buffer of the test.
unfoldable pub on_read : ℤ → List ℕ → Told → List ℕ → List ReadReply → Option Answer
unfolding server_tst1 read_rest
on_read fd clock aborted buffer rs = some returned
on_read fd clock other_error buffer rs = some thrown
on_read fd clock no_error buffer rs = elim (Uds.read true fd true (pos 4) rs) [
  | none ↦ none
  | some e ↦ elim e.status [
    | success ↦
        if (length e.stored == 4) && same_bytes e.stored request
        then (elim (server_tst1 fd clock buffer e.rest) [ none ↦ none | some v ↦ some (tested v) ])
        else read_rest fd (length e.stored) e.rest
    | invalid ↦ some returned
    | failed x ↦ some returned
  ]
]
