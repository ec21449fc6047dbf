-- ===== src/Tests/Exchanges.antt =====
-- The test that main makes, at small totals.
use hodgepodge.Prelude.{
  ◌≡◌, refl, ap, List, [], ◌∷◌, ℕ, zero, suc, length, some, pos, arith, replicate,
}
use hodgepodge.Socket.{got}
use hodgepodge.Exchange.{server_loop, passed, numbers}
use hodgepodge.Exchange.Clock.{Timed}
use hodgepodge.Exchange.Stale.{server_loop-stale}

abbrev zeros : ℕ → List ℕ
zeros n = replicate n 0

length-zeros : (n : ℕ) → length (zeros n) ≡ n
length-zeros zero = refl
length-zeros (suc n) = ap suc (length-zeros n)

pub buffer : List ℕ
buffer = zeros 1024

pub length-buffer : length buffer ≡ 1024
unfolding buffer
length-buffer = length-zeros 1024

stale-Timed : Timed 1025 (3 ∷ 5 ∷ []) 0
stale-Timed h = (omega arith, λ k. omega arith, λ h'. (omega arith, λ k. omega arith, omega arith))

server_loop-stale_example :
    server_loop
      (pos 8)
      (3 ∷ 5 ∷ [])
      1025
      0
      (pos 0)
      buffer
      (got (numbers 0 1024) ∷ replicate 1025 (got []))
    ≡ some passed
server_loop-stale_example =
    server_loop-stale 7 (3 ∷ 5 ∷ []) 1025 1025 buffer length-buffer (omega arith) (omega arith)
      stale-Timed
