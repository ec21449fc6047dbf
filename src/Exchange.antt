-- ===== src/Exchange.antt =====
-- tipc.cpp: the brute force test, from the client's loop in `main` to `server_tst1`. The client sends
-- the numbers from 0 as characters, in packets of any length; the server reads them in blocks and
-- compares each.
pub mod Client
pub mod Clock
pub mod Server
pub mod Stale
use hodgepodge.Prelude.{
  ℕ, zero, suc, ◌+◌, ◌-◌, ◌*◌, ◌%◌, ◌^◌, Bool, true, false, List, [], ◌∷◌, ◌++◌, Option, none, some,
  if◌then◌else◌, ◌==◌, ltb, length, take, drop, ℤ, pos, negsuc, not, ◌&&◌, ◌||◌, leb, ◌/◌,
  int_of_size,
}
use hodgepodge.Socket.{ReadReply}
use hodgepodge.Uds
use hodgepodge.Uds.{success, invalid, failed, overwrite}

-- `(char)id`, as a byte.
abbrev pub char_of : ℕ → ℕ
char_of id = id % 256

-- The loop that fills a packet: at most `room` characters, from `id`, below `total`.
unfoldable pub fill : ℕ → ℕ → ℕ → List ℕ
fill total zero id = []
fill total (suc room) id =
    let rest = fill total room (suc id) in if ltb id total then char_of id ∷ rest else []

-- The client's loop, with what `rand()` gives; the bytes that it writes. It ends with `none` if the
-- numbers run out before `total` is reached.
unfoldable pub client_loop : ℕ → List ℕ → ℕ → Option (List ℕ)
unfolding fill
client_loop total [] id = if ltb id total then none else some []
client_loop total (r ∷ rs) id =
    let packet = fill total (r % 1024 + 1) id in
    elim (ltb id total) [
      | false ↦ some []
      | true ↦ elim (client_loop total rs (id + length packet)) [
        | none ↦ none
        | some later ↦ some (packet ++ later)
      ]
    ]

-- How `server_tst1` ends: well, with an error of `read`, with the exception, or in arithmetic that C++ does
-- not define.
pub data Verdict : Type 0 where
  passed : Verdict
  aborted : Verdict
  differs : Verdict
  undefined : Verdict

-- The comparison of a block: `none` for the exception, or the next `id`.
unfoldable pub compare_block : ℕ → List ℕ → ℕ → Option ℕ
compare_block total [] id = some id
compare_block total (b ∷ bs) id =
    let rest = compare_block total bs (suc id) in
    if ltb id total then (if b == char_of id then rest else none) else some id

-- The length of the next block: what is left, at most `sizeof(buff_rx)`.
abbrev pub block : ℕ → ℕ → ℕ
block total id = if ltb (total - id) 1024 then total - id else 1024

-- The output divides `id` by `ms0 * 1024 * 1024 / 1000`, in `int`: the product does not overflow, and the
-- quotient is not 0.
abbrev pub has_rate : ℤ → Bool
has_rate (pos m) = ltb (m * 1024 * 1024) (2 ^ 31) && not (m * 1024 * 1024 / 1000 == 0)
has_rate (negsuc m) =
    leb ((m + 1) * 1024 * 1024) (2 ^ 31) && not ((m + 1) * 1024 * 1024 / 1000 == 0)

-- `ms.count() > ms0 + 1000`
abbrev pub is_later : ℕ → ℤ → Bool
is_later ms (pos m) = ltb (m + 1000) ms
is_later ms (negsuc m) = ltb 1000 (ms + (m + 1))

-- The output after a block, `ms` milliseconds after the start; the rest of the test gets `ms0`.
abbrev pub report : ℕ → ℕ → ℕ → ℤ → (ℤ → Option Verdict) → Option Verdict
report total id ms ms0 rest =
    if is_later ms ms0 || leb total id
    then (if has_rate (int_of_size ms) then rest (int_of_size ms) else some undefined)
    else rest ms0

-- The loop of `server_tst1` on a Unix socket with the handle `fd`: by `total`, `id`, `ms0`, what `buff_rx` holds
-- and the answers to come. The clock gives the milliseconds from the start to each reading. `none` if the
-- answers or the readings end.
unfoldable pub server_loop : ℤ → List ℕ → ℕ → ℕ → ℤ → List ℕ → List ReadReply → Option Verdict
unfolding compare_block overwrite
server_loop fd [] total id ms0 buffer rs = if ltb id total then none else some passed
server_loop fd (ms ∷ clock) total id ms0 buffer rs =
    let len = block total id in
    elim (ltb id total) [
      | false ↦ some passed
      | true ↦ elim (Uds.read false fd true (pos len) rs) [
        | none ↦ none
        | some e ↦
            let filled = overwrite buffer e.stored in
            elim e.status [
              | success ↦ elim (compare_block total (take len filled) id) [
                | none ↦ some differs
                | some id' ↦
                    report total id' ms ms0 (λ m. server_loop fd clock total id' m filled e.rest)
              ]
              | invalid ↦ some aborted
              | failed x ↦ some aborted
            ]
      ]
    ]

-- The characters of the numbers from `id`, `n` of them.
unfoldable pub numbers : ℕ → ℕ → List ℕ
numbers id zero = []
numbers id (suc n) = char_of id ∷ numbers (suc id) n
