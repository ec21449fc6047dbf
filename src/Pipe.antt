-- ===== src/Pipe.antt =====
-- tipc.cpp on Windows: the transfers of `ipc_connection_win_namedpipe`. A transfer takes the list of the
-- answers that its calls will get, and waits for good where the list ends.
pub mod Reading
pub mod Writing
use hodgepodge.Prelude.{
  ℕ, zero, suc, ◌+◌, ◌-◌, Bool, true, false, List, [], ◌∷◌, ◌++◌, Option, none, some, if◌then◌else◌,
  length, take, drop, ℤ,
}
use hodgepodge.Socket.{to_count}

-- How a call of `ReadFile` ends: with bytes at once, pending and then with bytes, or with an error
-- of either. The last error is never 0.
pub data ReadReply : Type 0 where
  read_now read_later : List ℕ → ReadReply
  fails_now fails_later : ℕ → ReadReply

-- How a call of `WriteFile` ends, with the number of bytes taken.
pub data WriteReply : Type 0 where
  wrote_now wrote_later : ℕ → WriteReply
  refused_now refused_later : ℕ → WriteReply

-- The value returned, the bytes in the caller's buffer, `*lp_cnt` where the caller gave it,
-- `m_cache_empty` and the answers not used.
pub record ReadEnd : Type 0 where
  pub error : ℕ
  pub stored : List ℕ
  pub count : Option ℕ
  pub cache_empty : Bool
  pub rest : List ReadReply

abbrev pub read_end : ℕ → List ℕ → Option ℕ → List ReadReply → Option ReadEnd
read_end e stored n rs =
    some (record { error = e; stored = stored; count = n; cache_empty = true; rest = rs })

-- What a call stores after `stored`, and `error_code`.
abbrev pub stored_by : ReadReply → List ℕ
stored_by (read_now bs) = bs
stored_by (read_later bs) = bs
stored_by (fails_now e) = []
stored_by (fails_later e) = []

abbrev pub error_of : ReadReply → ℕ
error_of (read_now bs) = 0
error_of (read_later bs) = 0
error_of (fails_now e) = e
error_of (fails_later e) = e

-- The loop of a blocking `read`, by `size - cnt` and what is stored.
unfoldable pub read_loop : ℕ → List ℕ → List ReadReply → Option ReadEnd
read_loop zero stored rs = read_end 0 stored none rs
read_loop (suc l) stored [] = none
read_loop (suc l) stored (r ∷ rs) = elim (error_of r) [
  | zero ↦ read_loop (suc l - length (stored_by r)) (stored ++ stored_by r) rs
  | suc e ↦ read_end (suc e) (stored ++ stored_by r) none rs
]

-- The loop with `lp_cnt`, which ends as soon as something is stored.
unfoldable pub poll_loop : ℕ → List ℕ → List ReadReply → Option ReadEnd
poll_loop zero stored rs = read_end 0 stored (some (length stored)) rs
poll_loop (suc l) stored [] = none
poll_loop (suc l) stored (r ∷ rs) =
    let got = stored ++ stored_by r in
    elim (error_of r) [
      | zero ↦ elim (length got) [
        | zero ↦ poll_loop (suc l) stored rs
        | suc n ↦ read_end 0 got (some (suc n)) rs
      ]
      | suc e ↦ read_end (suc e) got (some (length got)) rs
    ]

-- The byte of the cache, if it holds one.
abbrev pub cached : Bool → ℕ → List ℕ
cached true byte0 = []
cached false byte0 = byte0 ∷ []

-- `read` of `len` bytes without `lp_cnt`.
unfoldable pub read : Bool → ℕ → ℤ → List ReadReply → Option ReadEnd
unfolding read_loop
read cache_empty byte0 len rs =
    let start = cached cache_empty byte0 in read_loop (to_count len - length start) start rs

-- `read` with `lp_cnt`; `peek` is what PeekNamedPipe says is in the pipe, if it does not fail.
unfoldable pub poll : Bool → ℕ → ℤ → Option ℕ → List ReadReply → Option ReadEnd
unfolding poll_loop
poll cache_empty byte0 len peek rs =
    let start = cached cache_empty byte0 in
    elim peek [
      | none ↦ poll_loop (to_count len - length start) start rs
      | some zero ↦ read_end 0 start (some (length start)) rs
      | some (suc n) ↦ poll_loop (to_count len - length start) start rs
    ]

-- The value returned, the bytes that the system took and the answers not used.
pub record WriteEnd : Type 0 where
  pub error : ℕ
  pub sent : List ℕ
  pub rest : List WriteReply

abbrev pub write_end : ℕ → List ℕ → List WriteReply → Option WriteEnd
write_end e sent rs = some (record { error = e; sent = sent; rest = rs })

-- The loop of `write`, by `size - cnt`, the bytes from `pbuff + cnt` on, and what was sent.
unfoldable pub write_loop : ℕ → List ℕ → List ℕ → List WriteReply → Option WriteEnd
write_loop zero ptr sent rs = write_end 0 sent rs
write_loop (suc l) ptr sent [] = none
write_loop (suc l) ptr sent (wrote_now k ∷ rs) =
    write_loop (suc l - k) (drop k ptr) (sent ++ take k ptr) rs
write_loop (suc l) ptr sent (wrote_later k ∷ rs) =
    write_loop (suc l - k) (drop k ptr) (sent ++ take k ptr) rs
write_loop (suc l) ptr sent (refused_now e ∷ rs) = write_end e sent rs
write_loop (suc l) ptr sent (refused_later e ∷ rs) = write_end e sent rs

-- `write` of the first `len` bytes of a buffer.
unfoldable pub write : List ℕ → ℤ → List WriteReply → Option WriteEnd
unfolding write_loop
write bytes len rs = write_loop (to_count len) bytes [] rs
