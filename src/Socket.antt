-- ===== src/Socket.antt =====
-- SocketHelper.cpp. The operating system answers each call; a transfer takes the list of the answers
-- that its calls will get, and waits for good where the list ends.
pub mod Read
pub mod Write
use hodgepodge.Prelude.{
  ℕ, zero, suc, ◌+◌, ◌-◌, Bool, true, false, ◌&&◌, List, [], ◌∷◌, ◌++◌, Option, none, some,
  if◌then◌else◌, length, take, drop, ℤ, pos, negsuc,
}

-- `errno` after a call that failed.
pub data Errno : Type 0 where
  eintr eagain ewouldblock epipe einval : Errno
  other : ℕ → Errno

-- The loops try again on these.
unfoldable pub is_transient : Errno → Bool
is_transient eintr = true
is_transient eagain = true
is_transient ewouldblock = true
is_transient e = false

abbrev pub is_positive : ℤ → Bool
is_positive (pos zero) = false
is_positive (pos (suc n)) = true
is_positive (negsuc n) = false

abbrev pub to_count : ℤ → ℕ
to_count (pos n) = n
to_count (negsuc n) = 0

abbrev pub failure : ℤ
failure = negsuc 0

-- An answer of `read`: the bytes that it stored, none at the end of the file, or an error.
pub data ReadReply : Type 0 where
  got : List ℕ → ReadReply
  read_failed : Errno → ReadReply

-- An answer of `write`: the number of bytes taken, or an error.
pub data WriteReply : Type 0 where
  wrote : ℕ → WriteReply
  write_failed : Errno → WriteReply

-- The value returned, the bytes at the start of the caller's buffer, and the answers not used.
pub record ReadDone : Type 0 where
  pub ret : ℤ
  pub stored : List ℕ
  pub rest : List ReadReply

-- The loop of `readSocket`, by `leftBytes` and what is stored before `ptr`.
unfoldable pub read_loop : ℕ → ℕ → List ℕ → List ReadReply → Option ReadDone
unfolding is_transient
read_loop size zero stored rs = some (record { ret = pos (size - 0); stored = stored; rest = rs })
read_loop size (suc l) stored [] = none
read_loop size (suc l) stored (got [] ∷ rs) =
    some (record { ret = pos 0; stored = stored; rest = rs })
read_loop size (suc l) stored (got (b ∷ bs) ∷ rs) =
    read_loop size (suc l - length (b ∷ bs)) (stored ++ b ∷ bs) rs
read_loop size (suc l) stored (read_failed e ∷ rs) = elim (is_transient e) [
  | true ↦ read_loop size (suc l) stored rs
  | false ↦ some (record { ret = failure; stored = stored; rest = rs })
]

-- `readSocket`; the Boolean says that `buffer` is not null.
unfoldable pub read_socket : ℤ → Bool → ℤ → List ReadReply → Option ReadDone
unfolding read_loop
read_socket socket buffer size rs =
    if is_positive socket && (buffer && is_positive size)
    then read_loop (to_count size) (to_count size) [] rs
    else some (record { ret = failure; stored = []; rest = rs })

-- The value returned, the bytes that the system took, and the answers not used.
pub record WriteDone : Type 0 where
  pub ret : ℤ
  pub sent : List ℕ
  pub rest : List WriteReply

-- The loop of `writeSocket`, by `leftBytes`, the bytes from `ptr` on, and what was sent.
unfoldable pub write_loop : ℕ → ℕ → List ℕ → List ℕ → List WriteReply → Option WriteDone
unfolding is_transient
write_loop size zero ptr sent rs = some (record { ret = pos (size - 0); sent = sent; rest = rs })
write_loop size (suc l) ptr sent [] = none
write_loop size (suc l) ptr sent (wrote k ∷ rs) =
    write_loop size (suc l - k) (drop k ptr) (sent ++ take k ptr) rs
write_loop size (suc l) ptr sent (write_failed e ∷ rs) = elim (is_transient e) [
  | true ↦ write_loop size (suc l) ptr sent rs
  | false ↦ some (record { ret = failure; sent = sent; rest = rs })
]

-- `writeSocket` of the bytes of the buffer.
unfoldable pub write_socket : ℤ → Option (List ℕ) → ℤ → List WriteReply → Option WriteDone
write_socket socket none size rs = some (record { ret = failure; sent = []; rest = rs })
write_socket socket (some buffer) size rs =
    if is_positive socket && is_positive size
    then write_loop (to_count size) (to_count size) buffer [] rs
    else some (record { ret = failure; sent = []; rest = rs })
