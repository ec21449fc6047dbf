-- ===== src/Tests/Sessions.antt =====
-- A whole test of three characters.
use hodgepodge.Prelude.{◌≡◌, refl, subst, true, false, List, [], ◌∷◌, ◌++◌, ℕ, some, pos, arith}
use hodgepodge.Socket.{ReadReply, got}
use mathlib.Core.Option.{some-injective}
use hodgepodge.Uds
use hodgepodge.Uds.{ReadEnd}
use hodgepodge.Exchange.Server.{Serves}
use hodgepodge.Exchange.{client_loop, passed, undefined}
use hodgepodge.Exchange.Clock.{Timed}
use hodgepodge.Session.{request, client_session, no_error, tested, on_read}
use hodgepodge.Session.Passed.{Arrives, on_read-passed, on_read-undefined}
use hodgepodge.Tests.Exchanges.{buffer, length-buffer}

-- The total comes in two pieces, and the characters too.
abbrev pieces : List ReadReply
pieces = got (3 ∷ 0 ∷ []) ∷ got (0 ∷ 0 ∷ []) ∷ got (0 ∷ []) ∷ got (1 ∷ 2 ∷ []) ∷ []

abbrev session : List ℕ
session = request ++ (3 ∷ 0 ∷ 0 ∷ 0 ∷ 0 ∷ 1 ∷ 2 ∷ [])

session_sent : client_session 3 (1025 ∷ 7 ∷ 0 ∷ []) ≡ some session
unfolding client_session client_loop
session_sent = refl

abbrev characters : List ReadReply
characters = got (0 ∷ []) ∷ got (1 ∷ 2 ∷ []) ∷ []

characters-Serves : (ms : ℕ) (clock : List ℕ) → Serves 7 (ms ∷ clock) 3 0 characters
characters-Serves ms [] left = ((omega arith, (omega arith, tt)), λ d r. tt)
characters-Serves ms (ms' ∷ clock) left =
    ((omega arith, (omega arith, tt)), λ d r over. absurd (cc over))

total_read :
    (ms : ℕ) (clock : List ℕ) (d : ReadEnd)
    → Uds.read false (pos 8) true (pos 4) pieces ≡ some d
    → Serves 7 (ms ∷ clock) 3 0 d.rest
unfolding Uds.read Uds.read_loop
total_read ms clock d e =
    subst (λ z. Serves 7 (ms ∷ clock) 3 0 z.rest) (some-injective _ d e)
      (characters-Serves ms clock)

pieces-Arrives : (ms : ℕ) (clock : List ℕ) → Arrives 7 (ms ∷ clock) 3 pieces
pieces-Arrives ms clock =
    ((tt, (tt, (tt, (tt, tt)))), (omega arith, (omega arith, tt)), total_read ms clock)

three-Timed : Timed 3 (2 ∷ []) 0
three-Timed h = (omega arith, λ k. omega arith, omega arith)

on_read-passed_example :
    on_read (pos 8) (2 ∷ []) no_error buffer (got request ∷ pieces) ≡ some (tested passed)
on_read-passed_example =
    on_read-passed 7 (2 ∷ []) 3 (1025 ∷ 7 ∷ 0 ∷ []) buffer session pieces session_sent (omega arith)
      refl (pieces-Arrives 2 []) length-buffer three-Timed

on_read-undefined_example :
    on_read (pos 8) (0 ∷ 0 ∷ 0 ∷ []) no_error buffer (got request ∷ pieces)
    ≡ some (tested undefined)
on_read-undefined_example =
    on_read-undefined 7 3 3 (1025 ∷ 7 ∷ 0 ∷ []) buffer session pieces session_sent (omega arith)
      (omega arith) (omega arith) refl (pieces-Arrives 0 (0 ∷ 0 ∷ [])) length-buffer
