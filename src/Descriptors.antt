-- ===== src/Descriptors.antt =====
-- SocketHelper.cpp: the loops that pass descriptors through a socket. A loop takes the list of the
-- answers that its calls will get, and waits for good where the list ends.
pub mod Sending
pub mod Receiving
use hodgepodge.Prelude.{
  ℕ, zero, suc, Bool, true, false, ◌&&◌, List, [], ◌∷◌, ◌++◌, Option, none, some, if◌then◌else◌,
  get_or, ℤ, pos, negsuc,
}
use hodgepodge.Socket.{Errno, einval, is_transient, is_positive, to_count, failure}

-- An answer of `sendmsg`: the message is on its way, or an error.
pub data SendReply : Type 0 where
  accepted : SendReply
  send_failed : Errno → SendReply

-- An answer of `recvmsg`: the end of the file, a message with the number in its control part, which the
-- system has chosen for the receiver, or an error.
pub data ReceiveReply : Type 0 where
  closed : ReceiveReply
  passed : ℤ → ReceiveReply
  receive_failed : Errno → ReceiveReply

-- The value returned, `errno` where the function sets or leaves one, and the descriptors sent, or
-- stored at the start of `fds`.
pub record Done : Type 0 where
  pub ret : ℤ
  pub errno : Option Errno
  pub done : List ℤ

abbrev pub done_with : ℤ → Option Errno → List ℤ → Option Done
done_with r e ds = some (record { ret = r; errno = e; done = ds })

-- The loop of `sendFdsThroughSocket`, by `fdNum - cnt` and `cnt`. A read outside `fds` gives -1.
unfoldable pub send_loop : List ℤ → ℕ → ℕ → List ℤ → List SendReply → Option Done
unfolding is_transient
send_loop fds zero cnt sent rs = done_with (pos cnt) none sent
send_loop fds (suc l) cnt sent [] = none
send_loop fds (suc l) cnt sent (accepted ∷ rs) =
    send_loop fds l (suc cnt) (sent ++ get_or fds cnt failure ∷ []) rs
send_loop fds (suc l) cnt sent (send_failed e ∷ rs) = elim (is_transient e) [
  | true ↦ send_loop fds (suc l) cnt sent rs
  | false ↦ done_with failure (some e) sent
]

-- `sendFdsThroughSocket`; a null pointer is `none`.
unfoldable pub send_fds : ℤ → ℤ → Option (List ℤ) → List SendReply → Option Done
unfolding send_loop
send_fds socket fd_num none rs = done_with failure (some einval) []
send_fds socket fd_num (some fds) rs =
    if is_positive socket && is_positive fd_num
    then send_loop fds (to_count fd_num) 0 [] rs
    else done_with failure (some einval) []

-- The loop of `receiveFdsThroughSocket`, by `fdNum - cnt` and `cnt`.
unfoldable pub receive_loop : ℕ → ℕ → List ℤ → List ReceiveReply → Option Done
unfolding is_transient
receive_loop zero cnt stored rs = done_with (pos cnt) none stored
receive_loop (suc l) cnt stored [] = none
receive_loop (suc l) cnt stored (closed ∷ rs) = done_with (pos 0) none stored
receive_loop (suc l) cnt stored (passed (negsuc n) ∷ rs) = done_with failure none stored
receive_loop (suc l) cnt stored (passed (pos fd) ∷ rs) =
    receive_loop l (suc cnt) (stored ++ pos fd ∷ []) rs
receive_loop (suc l) cnt stored (receive_failed e ∷ rs) = elim (is_transient e) [
  | true ↦ receive_loop (suc l) cnt stored rs
  | false ↦ done_with failure (some e) stored
]

-- `receiveFdsThroughSocket`; the Boolean says that `fds` is not null.
unfoldable pub receive_fds : ℤ → ℤ → Bool → List ReceiveReply → Option Done
unfolding receive_loop
receive_fds socket fd_num fds rs =
    if is_positive socket && (is_positive fd_num && fds)
    then receive_loop (to_count fd_num) 0 [] rs
    else done_with failure (some einval) []
