-- ===== src/SetUp.antt =====
-- SocketHelper.cpp: the functions that make sockets. Each call of the operating system is logged with
-- its answer; what the system answers is a parameter.
pub mod Opened
use Prim.Native.Nat.{bit_and, bit_or}
use hodgepodge.Prelude.{
  ℕ, zero, suc, ◌-◌, ◌%◌, ◌^◌, Bool, true, false, not, List, [], ◌∷◌, Option, none, some,
  if◌then◌else◌, ℤ, pos, negsuc, size_of_int, int_of_size, eq_int,
}

-- A port of an Internet address, of any host if there is none, or a path.
pub data Address : Type 0 where
  inet : Option (List ℕ) → ℤ → Address
  unix : List ℕ → Address

pub data Call : Type 0 where
  socket_inet socket_unix : Call
  set_cloexec get_flags set_reuse close : ℤ → Call
  set_flags listen : ℤ → ℤ → Call
  bind connect : ℤ → Address → Call
  accept : ℤ → Call
  stat unlink : List ℕ → Call

-- The calls so far, the newest first.
abbrev pub Log : Type 0
Log = List (Call × ℤ)

-- What the system answers after the calls so far. The last three stand for what it stores: the path
-- in the address of the client accepted last, and of the file that `stat` looked at last whether it
-- is a socket, and its owner.
pub record System : Type 0 where
  pub answer : Log → Call → ℤ
  pub peer : Log → List ℕ
  pub is_sock : Log → Bool
  pub owner : Log → ℕ

abbrev pub is_negative : ℤ → Bool
is_negative (pos n) = false
is_negative (negsuc n) = true

abbrev pub is_zero : ℤ → Bool
is_zero z = eq_int z (pos 0)

-- -1, -2, -3 and -4
abbrev pub minus : ℕ → ℤ
minus n = negsuc (n - 1)

-- `curFlags | O_NONBLOCK` and `curFlags & ~O_NONBLOCK`, on 32 bits.
abbrev pub new_flags : ℤ → Bool → ℤ
new_flags z true = int_of_size (bit_or (size_of_int z % 2 ^ 32) 0x800)
new_flags z false = int_of_size (bit_and (size_of_int z % 2 ^ 32) (2 ^ 32 - 1 - 0x800))

module _ (os : System) where
  abbrev pub ask : Call → Log → ℤ × Log
  ask c log = let r = os.answer log c in (r, (c, r) ∷ log)

  abbrev pub give_up : ℤ → ℤ → Log → ℤ × Log
  give_up fd rval log = (rval, (ask (close fd) log).1)

  -- `createStreamSocket`
  unfoldable pub create_stream : Log → ℤ × Log
  create_stream log =
      let (fd, log1) = ask socket_inet log in
      if is_negative fd
      then (fd, log1)
      else let (flagged, log2) = ask (set_cloexec fd) log1 in
        let (reuse, log3) = ask (set_reuse fd) log2 in
        if is_negative reuse then give_up fd (minus 1) log3 else (fd, log3)

  -- `setSocketBlockMode`
  unfoldable pub set_block_mode : ℤ → Bool → Log → Bool × Log
  set_block_mode fd non_blocking log =
      let (current, log1) = ask (get_flags fd) log in
      let (status, log2) = ask (set_flags fd (new_flags current non_blocking)) log1 in
      (not (is_negative status), log2)

  -- `setupListenSocket` at a port, from where it has a socket.
  unfoldable pub listen_inet : ℤ → ℤ → ℤ → Bool → Log → ℤ × Log
  unfolding set_block_mode
  listen_inet fd port most non_blocking log =
      let (bound, log1) = ask (bind fd (inet none port)) log in
      if not (is_zero bound)
      then give_up fd (minus 1) log1
      else let (made, log2) = set_block_mode fd non_blocking log1 in
        if not made
        then give_up fd (minus 1) log2
        else let (listens, log3) = ask (listen fd most) log2 in
          if is_negative listens then give_up fd (minus 1) log3 else (fd, log3)

  -- `setupListenSocket` at a port.
  unfoldable pub set_up_listen_inet : ℤ → ℤ → Bool → Log → ℤ × Log
  unfolding create_stream listen_inet
  set_up_listen_inet port most non_blocking log =
      let (fd, log1) = create_stream log in
      if is_negative fd
      then (minus 1, log1)
      else if is_zero fd
      then (minus 1, log1)
      else listen_inet fd port most non_blocking log1

  -- `setupConnectionSocket` to a host, without REUSE_FOR_TCP.
  unfoldable pub set_up_connection_inet : Option (List ℕ) → ℤ → Log → ℤ × Log
  unfolding create_stream
  set_up_connection_inet host port log =
      let (fd, log1) = create_stream log in
      if is_negative fd
      then (minus 1, log1)
      else if is_zero fd
      then (minus 1, log1)
      else let (connected, log2) = ask (connect fd (inet host port)) log1 in
        if not (is_zero connected) then give_up fd (minus 1) log2 else (fd, log2)

  -- `setupListenSocket` at a path.
  unfoldable pub set_up_listen_unix : List ℕ → ℤ → Log → ℤ × Log
  set_up_listen_unix name most log =
      let (fd, log1) = ask socket_unix log in
      if is_negative fd
      then (minus 1, log1)
      else let (gone, log2) = ask (unlink name) log1 in
        let (bound, log3) = ask (bind fd (unix name)) log2 in
        if is_negative bound
        then give_up fd (minus 2) log3
        else let (listens, log4) = ask (listen fd most) log3 in
          if is_negative listens then give_up fd (minus 3) log4 else (fd, log4)

  -- `acceptConnectSocket` at a path, with what it stores through `uidptr`.
  unfoldable pub accept_unix : ℤ → Log → (ℤ × Log) × Option ℕ
  accept_unix listening log =
      let (fd, log1) = ask (accept listening) log in
      let path = os.peer log1 in
      if is_negative fd
      then ((minus 1, log1), none)
      else let (found, log2) = ask (stat path) log1 in
        if is_negative found
        then (give_up fd (minus 2) log2, none)
        else if not (os.is_sock log2)
        then (give_up fd (minus 3) log2, none)
        else ((fd, (ask (unlink path) log2).1), some (os.owner log2))

  -- `acceptConnectSocket` at a port.
  unfoldable pub accept_inet : ℤ → Log → ℤ × Log
  accept_inet listening log = ask (accept listening) log

  -- `setupConnectionSocket` to a path; `own` is the path with the process's number.
  unfoldable pub set_up_connection_unix : List ℕ → List ℕ → Log → ℤ × Log
  set_up_connection_unix own name log =
      let (fd, log1) = ask socket_unix log in
      if is_negative fd
      then (minus 1, log1)
      else let (gone, log2) = ask (unlink own) log1 in
        let (bound, log3) = ask (bind fd (unix own)) log2 in
        if is_negative bound
        then give_up fd (minus 2) log3
        else let (connected, log4) = ask (connect fd (unix name)) log3 in
          if is_negative connected then give_up fd (minus 4) log4 else (fd, log4)

-- Any of them.
pub data Request : Type 0 where
  listen_at_port : ℤ → ℤ → Bool → Request
  connect_to_host : Option (List ℕ) → ℤ → Request
  accept_from_host : ℤ → Request
  listen_at_path : List ℕ → ℤ → Request
  accept_from_path : ℤ → Request
  connect_to_path : List ℕ → List ℕ → Request

unfoldable pub set_up : System → Request → Log → ℤ × Log
set_up os (listen_at_port port most non_blocking) log =
    set_up_listen_inet os port most non_blocking log
set_up os (connect_to_host host port) log = set_up_connection_inet os host port log
set_up os (accept_from_host listening) log = accept_inet os listening log
set_up os (listen_at_path name most) log = set_up_listen_unix os name most log
set_up os (accept_from_path listening) log = (accept_unix os listening log).0
set_up os (connect_to_path own name) log = set_up_connection_unix os own name log
