-- ===== src/Connection.antt =====
-- tipc.cpp: the life of an `ipc_connection_linux_UDS`, with its service and the calls of the system
-- that it makes.
pub mod Life
use hodgepodge.Prelude.{
  ℕ, ◌+◌, Bool, true, false, not, ◌&&◌, List, [], ◌∷◌, Option, none, some, if◌then◌else◌, take,
  replicate, ℤ, pos, negsuc,
}
use hodgepodge.SetUp.{
  Address, unix, socket_unix, close, listen, bind, connect, accept, stat, unlink, Log, System,
  is_negative, ask, set_block_mode,
}
use hodgepodge.Uds.{string_copy}
use hodgepodge.Ipc.{Service, associate, unassociate, invalid}

-- A connection, by the number that stands for its address, and what it shares with the others.
pub record Connection : Type 0 where
  pub self : ℕ
  pub fd : ℤ
  pub listening : Bool
  pub service : Service
  pub log : Log

-- Which of the callbacks are set.
pub record Callbacks : Type 0 where
  pub on_accept : Bool
  pub on_close : Bool
  pub on_read : Bool

-- The callback that `notify` calls; `accepted` is for a new connection with the descriptor.
pub data Called : Type 0 where
  accepted : ℤ → Called
  closed read : Called

-- The address of a name: what `string_copy` leaves in `sun_path`, with the zero.
unfoldable pub address_of : List ℕ → Address
address_of name = elim (string_copy (replicate 108 0) name 0) [
  | none ↦ unix []
  | some (path, cnt) ↦ unix (take (cnt + 1) path)
]

module _ (os : System) where
  -- The constructor, or an exception, `none`. `path` is the server's name, or where that is empty the
  -- client's own path, with the process's number.
  unfoldable pub construct : ℕ → List ℕ → Service → Log → Option Connection × Log
  unfolding address_of
  construct self path service log =
      let (fd, log1) = ask os socket_unix log in
      if is_negative fd
      then (none, log1)
      else let (gone, log2) = ask os (unlink path) log1 in
        let (bound, log3) = ask os (bind fd (address_of path)) log2 in
        if is_negative bound then (none, log3) else (
          some (record {
            self = self;
            fd = fd;
            listening = false;
            service = associate fd self service;
            log = log3;
          }),
          log3,
        )

  -- `close`
  unfoldable pub close_connection : Connection → Connection
  close_connection c =
      if is_negative c.fd
      then c
      else record c { fd = negsuc 0; log = (ask os (close c.fd) c.log).1 }

  -- The destructor.
  unfoldable pub destroy : Connection → Connection
  unfolding close_connection
  destroy c = close_connection (record c { service = unassociate c.fd c.service })

  -- `listen`; the Boolean says that it returns 0.
  unfoldable pub start_listening : Connection → Connection × Bool
  start_listening c =
      if c.listening
      then (c, true)
      else let (r, log1) = ask os (listen c.fd (pos 5)) c.log in
        if is_negative r
        then (record c { log = log1 }, false)
        else (record c { log = log1; listening = true }, true)

  -- `connect`; the Boolean says that it returns 0.
  unfoldable pub connect_to : List ℕ → Connection → Connection × Bool
  unfolding address_of
  connect_to name c =
      let (r, log1) = ask os (connect c.fd (address_of name)) c.log in
      (record c { log = log1 }, not (is_negative r))

  -- The part of `notify` for a client; `self` is the address of the connection that it makes.
  unfoldable pub accept_client : Callbacks → ℕ → Connection → Connection × Option Called
  accept_client calls self c =
      let (client, log1) = ask os (accept c.fd) c.log in
      let path = os.peer log1 in
      if is_negative client
      then (record c { log = log1 }, none)
      else if not calls.on_accept
      then (record c { log = log1 }, none)
      else let (found, log2) = ask os (stat path) log1 in
        if is_negative found
        then (record c { log = (ask os (close client) log2).1 }, none)
        else if not (os.is_sock log2)
        then (record c { log = (ask os (close client) log2).1 }, none)
        else (
          record c {
            log = (ask os (unlink path) log2).1;
            service = associate client self c.service;
          },
          some (accepted client),
        )

  -- `notify`, by whether EPOLLIN and EPOLLRDHUP are among the events.
  unfoldable pub notify : Callbacks → Bool → Bool → ℕ → Connection → Connection × Option Called
  unfolding accept_client
  notify calls input hangup self c =
      if c.listening && input
      then accept_client calls self c
      else if hangup
      then (c, (if calls.on_close then some closed else none))
      else if input
      then (c, (if calls.on_read then some read else none))
      else (c, none)

  -- `set_block_mode`
  unfoldable pub set_mode : Bool → Connection → Connection × Bool
  set_mode blocking c =
      let (done, log1) = set_block_mode os c.fd (not blocking) c.log in
      (record c { log = log1 }, done)
