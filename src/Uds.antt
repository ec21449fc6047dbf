-- ===== src/Uds.antt =====
-- tipc.cpp: `string_copy`, and the transfers of `ipc_connection_linux_UDS`. A transfer takes the list of
-- the answers that its calls will get, and waits for good where the list ends.
pub mod Strings
pub mod Transfers
pub mod Calm
use hodgepodge.Prelude.{
  ℕ, zero, suc, ◌+◌, ◌-◌, Bool, true, false, ◌&&◌, List, [], ◌∷◌, ◌++◌, Option, none, some,
  if◌then◌else◌, ltb, length, take, drop, set, ℤ, pos, negsuc,
}
use hodgepodge.Socket.{
  Errno, is_transient, is_positive, to_count, ReadReply, got, read_failed, WriteReply, wrote,
  write_failed,
}

abbrev pub min_size : ℕ → ℕ → ℕ
min_size a b = if ltb b a then b else a

-- The characters, at the start of the array.
unfoldable pub overwrite : List ℕ → List ℕ → List ℕ
overwrite dest [] = dest
overwrite [] (c ∷ cs) = []
overwrite (x ∷ dest) (c ∷ cs) = c ∷ overwrite dest cs

-- `string_copy`, other than on Windows: the array after it and the value returned, or `none` for the
-- exception `out_of_range`.
unfoldable pub string_copy : List ℕ → List ℕ → ℕ → Option (List ℕ × ℕ)
unfolding overwrite
string_copy dest str start =
    if ltb (length str) start
    then none
    else let copied = min_size (length dest - 1) (length str - start) in
      let cnt = min_size copied (length dest - 1) in
      some (set (overwrite dest (take copied (drop start str))) cnt 0, cnt)

-- The value returned: 0, -1 for arguments that are not valid, or `errno`.
pub data Status : Type 0 where
  success : Status
  invalid : Status
  failed : Errno → Status

-- What a `read` returns, what it stored and the answers not used; `*lp_cnt` is the count of `stored`.
pub record ReadEnd : Type 0 where
  pub status : Status
  pub stored : List ℕ
  pub rest : List ReadReply

abbrev pub read_end : Status → List ℕ → List ReadReply → Option ReadEnd
read_end st stored rs = some (record { status = st; stored = stored; rest = rs })

-- The loop of `read`, by `leftBytes`; the flag says that `lp_cnt` is not null.
unfoldable pub read_loop : Bool → ℕ → List ℕ → List ReadReply → Option ReadEnd
unfolding is_transient
read_loop polling zero stored rs = read_end success stored rs
read_loop polling (suc l) stored [] = none
read_loop polling (suc l) stored (got [] ∷ rs) = read_end success stored rs
read_loop true (suc l) stored (got (b ∷ bs) ∷ rs) = read_end success (stored ++ b ∷ bs) rs
read_loop false (suc l) stored (got (b ∷ bs) ∷ rs) =
    read_loop false (suc l - length (b ∷ bs)) (stored ++ b ∷ bs) rs
read_loop true (suc l) stored (read_failed e ∷ rs) =
    read_end (if is_transient e then success else failed e) stored rs
read_loop false (suc l) stored (read_failed e ∷ rs) = elim (is_transient e) [
  | true ↦ read_loop false (suc l) stored rs
  | false ↦ read_end (failed e) stored rs
]

-- `read`, with the handle of the connection; the first Boolean says that `buffer` is not null.
unfoldable pub read : Bool → ℤ → Bool → ℤ → List ReadReply → Option ReadEnd
unfolding read_loop
read polling fd buffer size rs =
    if is_positive fd && (buffer && is_positive size)
    then read_loop polling (to_count size) [] rs
    else read_end invalid [] rs

pub record WriteEnd : Type 0 where
  pub status : Status
  pub sent : List ℕ
  pub rest : List WriteReply

abbrev pub write_end : Status → List ℕ → List WriteReply → Option WriteEnd
write_end st sent rs = some (record { status = st; sent = sent; rest = rs })

-- The loop of `write`, by `leftBytes`, the bytes from `ptr` on, and what was sent.
unfoldable pub write_loop : ℕ → List ℕ → List ℕ → List WriteReply → Option WriteEnd
unfolding is_transient
write_loop zero ptr sent rs = write_end success sent rs
write_loop (suc l) ptr sent [] = none
write_loop (suc l) ptr sent (wrote k ∷ rs) =
    write_loop (suc l - k) (drop k ptr) (sent ++ take k ptr) rs
write_loop (suc l) ptr sent (write_failed e ∷ rs) = elim (is_transient e) [
  | true ↦ write_loop (suc l) ptr sent rs
  | false ↦ write_end (failed e) sent rs
]

-- `write` of the bytes of the buffer; a null pointer is `none`.
unfoldable pub write : ℤ → Option (List ℕ) → ℤ → List WriteReply → Option WriteEnd
unfolding write_loop
write fd none size rs = write_end invalid [] rs
write fd (some bytes) size rs =
    if is_positive fd && is_positive size
    then write_loop (to_count size) bytes [] rs
    else write_end invalid [] rs
