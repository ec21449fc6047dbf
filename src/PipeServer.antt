-- ===== src/PipeServer.antt =====
-- tipc.cpp on Windows: the handles of `ipc_connection_win_namedpipe`, from its constructors to its
-- destructor, with `listen`, `connect` and what it does with a client. Each call of the system is
-- logged with its answer; what the system answers is a parameter.
pub mod Handles
pub mod Accept
use hodgepodge.Prelude.{
  ℕ, zero, suc, Bool, true, false, not, ◌&&◌, ◌||◌, List, [], ◌∷◌, Option, none, some,
  if◌then◌else◌, ◌==◌, ℤ, pos, negsuc, eq_int,
}
use hodgepodge.Ipc.{Service, get, put, erase, is_null, invalid}

-- Calls of the system. A handle is a number, and so is the address of a connection; an error is a
-- number, 0 for success.
pub data Call : Type 0 where
  create_event : Call
  create_port create_pipe open_pipe : List ℕ → Call
  add_to_port connect_pipe read_ahead post_waitconn post_error close_handle : ℤ → Call

abbrev pub Log : Type 0
Log = List (Call × ℤ)

-- The answer to a call that gives a handle is the handle; to any other it is the error.
abbrev pub System : Type 0
System = Log → Call → ℤ

-- `m_map_fast` and `m_map` of the service, and the log.
pub record World : Type 0 where
  pub service : Service
  pub log : Log

-- A function returns, throws, or an assertion in it fails.
pub data Outcome (A : Type 0) : Type 0 where
  returns : A → World → Outcome A
  throws : World → Outcome A
  asserts : World → Outcome A

abbrev pub M : Type 0 → Type 0
M A = World → Outcome A

abbrev pub pure : {A : Type 0} → A → M A
pure a w = returns a w

infixl 5 ◌>>=◌ ◌>>◌
abbrev pub ◌>>=◌ : {A B : Type 0} → M A → (A → M B) → M B
◌>>=◌ m f w = elim (m w) [ returns a w' ↦ f a w' | throws w' ↦ throws w' | asserts w' ↦ asserts w' ]

abbrev pub ◌>>◌ : {A B : Type 0} → M A → M B → M B
m >> k = m >>= λ _. k

abbrev pub throw : {A : Type 0} → M A
throw w = throws w

abbrev pub assert : Bool → M (Unit {0})
assert true w = returns tt w
assert false w = asserts w

-- `ERROR_PIPE_CONNECTED` and `ERROR_IO_PENDING`
abbrev pub pipe_connected : ℤ
pipe_connected = pos 535

abbrev pub io_pending : ℤ
io_pending = pos 997

-- A connection: its address, `m_oshd`, the event of `m_sync_overlapped`, `m_name` and `m_cache_empty`.
pub record Pipe : Type 0 where
  pub self : ℕ
  pub oshd : ℤ
  pub event : ℤ
  pub name : List ℕ
  pub cache_empty : Bool

abbrev pub is_valid : ℤ → Bool
is_valid h = not (eq_int h invalid)

module _ (os : System) where
  abbrev pub ask : Call → M ℤ
  ask c w = let r = os w.log c in returns r (record w { log = (c, r) ∷ w.log })

  -- `get(oshd)`, and `get(oshd) = pconn`
  abbrev pub get_entry : ℤ → M (Option ℕ)
  get_entry h w = let (s, c) = get h w.service in returns c (record w { service = s })

  abbrev pub put_entry : ℤ → ℕ → M (Unit {0})
  put_entry h self w = returns tt (record w { service = put h (some self) w.service })

  -- `associate` on Windows: the first time, the handle is added to the port.
  unfoldable pub associate : ℤ → ℕ → M (Unit {0})
  associate h self = if eq_int h invalid then pure tt else do
    known ← get_entry h
    added ← (if is_null known then ask (add_to_port h) else pure (pos 0))
    if eq_int added (pos 0) then put_entry h self else throw

  -- `unassociate` on Windows
  unfoldable pub unassociate : ℤ → M (Unit {0})
  unassociate h w =
      returns tt (if eq_int h invalid then w else record w { service = erase h w.service })

  -- The constructor with a name; it leaves in `m_oshd` what the memory held.
  unfoldable pub construct_named : ℕ → ℤ → List ℕ → M Pipe
  construct_named self memory name = do
    event ← ask create_event
    pure (record { self = self; oshd = memory; event = event; name = name; cache_empty = true })

  -- The constructor with a handle.
  unfoldable pub construct_from : ℕ → ℤ → M Pipe
  construct_from self h = do
    event ← ask create_event
    associate h self
    pure (record { self = self; oshd = h; event = event; name = []; cache_empty = true })

  unfoldable pub close_pipe : Pipe → M Pipe
  unfolding unassociate
  close_pipe p =
      if eq_int p.oshd invalid
      then pure p
      else do unassociate p.oshd; ask (close_handle p.oshd); pure (record p { oshd = invalid })

  unfoldable pub destroy : Pipe → M Pipe
  unfolding close_pipe
  destroy p = do ask (close_handle p.event); close_pipe p

  -- `wait_for_connection`, with the value that it returns.
  unfoldable pub wait_for_connection : Pipe → M ℤ
  wait_for_connection p = do
    assert (is_valid p.oshd)
    r ← ask (connect_pipe p.oshd)
    if eq_int r (pos 0) || eq_int r io_pending
        then pure (pos 0)
        else if eq_int r pipe_connected
        then (ask (post_waitconn p.oshd) >> pure (pos 0))
        else pure r

  -- `trigger_async_cache_read`; what becomes of the byte that it reads is in Channel.
  unfoldable pub trigger_read : Pipe → M (Unit {0})
  trigger_read p = do
    assert p.cache_empty
    r ← ask (read_ahead p.oshd)
    if eq_int r (pos 0) || eq_int r io_pending
        then pure tt
        else (ask (post_error p.oshd) >> pure tt)

  unfoldable pub connect_to : List ℕ → Pipe → M Pipe
  connect_to dest p = do
    h ← ask (open_pipe dest)
    if eq_int h invalid
        then throw
        else do associate h p.self; let p' = record p { oshd = h }; trigger_read p'; pure p'

  unfoldable pub listen : Pipe → M Pipe
  listen p = do
    h ← ask (create_pipe p.name)
    if eq_int h invalid
        then throw
        else do associate h p.self; let p' = record p { oshd = h }; wait_for_connection p'; pure p'

  -- The part of `notify` for a client, `self` being the address of the connection that it makes. The
  -- call of `on_accept` is the result.
  unfoldable pub accept_client : Bool → ℕ → Pipe → M (Pipe × Option Pipe)
  accept_client on_accept self p = if not on_accept then pure (p, none) else do
    client ← construct_from self p.oshd
    p' ← listen p
    wait_for_connection p'
    trigger_read client
    pure (p', some client)

  -- The constructor of the service on Windows.
  unfoldable pub start_service : M ℤ
  start_service = do port ← ask (create_port []); if eq_int port (pos 0) then throw else pure port
