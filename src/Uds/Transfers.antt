-- ===== src/Uds/Transfers.antt =====
-- The transfers of `ipc_connection_linux_UDS` and those of SocketHelper.cpp.
use hodgepodge.Prelude.{
  ℕ, zero, suc, ◌-◌, ◌≡◌, refl, Bool, true, false, ◌&&◌, inl, inr, List, [], ◌∷◌, ◌++◌, Option,
  none, some, Bool-cases, if◌then◌else◌, length, take, drop, ℤ, eq_int,
}
use hodgepodge.Socket.{
  Errno, is_transient, is_positive, to_count, failure, ReadReply, got, read_failed, WriteReply,
  wrote, write_failed, ReadDone, WriteDone, read_socket, write_socket,
}
use hodgepodge.Uds.{
  Status, success, invalid, failed, ReadEnd, read_loop, read, WriteEnd, write_loop, write,
}
use hodgepodge.Socket

abbrev pub is_success : Status → Bool
is_success success = true
is_success invalid = false
is_success (failed e) = false

-- The two ends have the same bytes and the same answers left, and only one of the functions
-- reports an error if the other does.
abbrev pub SameRead : Option ReadEnd → Option ReadDone → Type 0
SameRead none none = Unit
SameRead none (some d) = ⊥
SameRead (some e) none = ⊥
SameRead (some e) (some d) =
    (e.stored ≡ d.stored)
    × (e.rest ≡ d.rest)
    × (is_success e.status ≡ is_success (if eq_int d.ret failure then invalid else success))

read_loop-SameRead :
    (n left : ℕ) (stored : List ℕ) (rs : List ReadReply)
    → SameRead (read_loop false left stored rs) (Socket.read_loop n left stored rs)
unfolding read_loop Socket.read_loop
read_loop-SameRead n zero stored rs = (refl, refl, refl)
read_loop-SameRead n (suc l) stored [] = tt
read_loop-SameRead n (suc l) stored (got [] ∷ rs) = (refl, refl, refl)
read_loop-SameRead n (suc l) stored (got (b ∷ bs) ∷ rs) =
    read_loop-SameRead n (suc l - length (b ∷ bs)) (stored ++ b ∷ bs) rs
read_loop-SameRead n (suc l) stored (read_failed x ∷ rs) = elim (Bool-cases (is_transient x)) [
  | inl again ↦ rw (again, read_loop, Socket.read_loop) (read_loop-SameRead n (suc l) stored rs)
  | inr fatal ↦ rw (fatal, read_loop, Socket.read_loop) (refl, refl, refl)
]

-- On the same arguments and answers, `read` without `lp_cnt` and `readSocket` store the same bytes and
-- leave the same answers, if they return, and `read` returns 0 exactly if `readSocket` does not return -1.
pub read-SameRead :
    (fd : ℤ) (buffer : Bool) (size : ℤ) (rs : List ReadReply)
    → SameRead (read false fd buffer size rs) (read_socket fd buffer size rs)
unfolding read read_socket
read-SameRead fd buffer size rs =
    elim (Bool-cases (is_positive fd && (buffer && is_positive size))) [
      | inl valid ↦
          rw (valid, read, read_socket) (read_loop-SameRead (to_count size) (to_count size) [] rs)
      | inr wrong ↦ rw (wrong, read, read_socket) (refl, refl, refl)
    ]

abbrev pub SameWrite : Option WriteEnd → Option WriteDone → Type 0
SameWrite none none = Unit
SameWrite none (some d) = ⊥
SameWrite (some e) none = ⊥
SameWrite (some e) (some d) =
    (e.sent ≡ d.sent)
    × (e.rest ≡ d.rest)
    × (is_success e.status ≡ is_success (if eq_int d.ret failure then invalid else success))

write_loop-SameWrite :
    (n left : ℕ) (ptr sent : List ℕ) (rs : List WriteReply)
    → SameWrite (write_loop left ptr sent rs) (Socket.write_loop n left ptr sent rs)
unfolding write_loop Socket.write_loop
write_loop-SameWrite n zero ptr sent rs = (refl, refl, refl)
write_loop-SameWrite n (suc l) ptr sent [] = tt
write_loop-SameWrite n (suc l) ptr sent (wrote k ∷ rs) =
    write_loop-SameWrite n (suc l - k) (drop k ptr) (sent ++ take k ptr) rs
write_loop-SameWrite n (suc l) ptr sent (write_failed x ∷ rs) = elim (Bool-cases (is_transient x)) [
  | inl again ↦
      rw (again, write_loop, Socket.write_loop) (write_loop-SameWrite n (suc l) ptr sent rs)
  | inr fatal ↦ rw (fatal, write_loop, Socket.write_loop) (refl, refl, refl)
]

-- On the same arguments and answers, `write` and `writeSocket` send the same bytes and leave the same
-- answers, if they return, and `write` returns 0 exactly if `writeSocket` does not return -1.
pub write-SameWrite :
    (fd : ℤ) (bytes : Option (List ℕ)) (size : ℤ) (rs : List WriteReply)
    → SameWrite (write fd bytes size rs) (write_socket fd bytes size rs)
unfolding write write_socket
write-SameWrite fd none size rs = (refl, refl, refl)
write-SameWrite fd (some bytes) size rs = elim (Bool-cases (is_positive fd && is_positive size)) [
  | inl valid ↦
      rw (valid, write, write_socket)
        (write_loop-SameWrite (to_count size) (to_count size) bytes [] rs)
  | inr wrong ↦ rw (wrong, write, write_socket) (refl, refl, refl)
]
