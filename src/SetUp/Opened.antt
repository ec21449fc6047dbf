-- ===== src/SetUp/Opened.antt =====
-- The sockets that the functions of SocketHelper.cpp leave open.
use hodgepodge.Prelude.{
  ℕ, ◌≡◌, refl, Bool, false, List, [], ◌∷◌, Option, if◌then◌else◌, ℤ, pos, arith, eq_int,
  eq_int_iff,
}
use hodgepodge.SetUp.{
  socket_inet, socket_unix, close, set_reuse, set_cloexec, minus, accept, Log, System, is_negative,
  is_zero, Request, listen_at_port, connect_to_host, accept_from_host, listen_at_path,
  accept_from_path, connect_to_path, set_up, create_stream, set_block_mode, listen_inet,
  set_up_listen_inet, set_up_connection_inet, set_up_listen_unix, accept_unix, accept_inet,
  set_up_connection_unix,
}

unfoldable pub without : ℤ → List ℤ → List ℤ
without d [] = []
without d (x ∷ xs) = if eq_int d x then xs else x ∷ without d xs

abbrev pub gained : ℤ → List ℤ → List ℤ
gained r ds = if is_negative r then ds else r ∷ ds

-- The descriptors that the calls have opened and not closed.
abbrev pub opened : Log → List ℤ
opened [] = []
opened ((socket_inet, r) ∷ log) = gained r (opened log)
opened ((socket_unix, r) ∷ log) = gained r (opened log)
opened ((accept d, r) ∷ log) = gained r (opened log)
opened ((close d, r) ∷ log) = without d (opened log)
opened ((c, r) ∷ log) = opened log

pub without-head : (d : ℤ) (ds : List ℤ) → without d (d ∷ ds) ≡ ds
unfolding without
without-head d ds = ground (arith, eq_int_iff d d)

abbrev Leaves : List ℤ → ℤ × Log → Type 0
Leaves before (r, log) = opened log ≡ gained r before

set_up_listen_unix-Leaves :
    (os : System) (name : List ℕ) (most : ℤ) (log : Log)
    → Leaves (opened log) (set_up_listen_unix os name most log)
unfolding set_up_listen_unix
set_up_listen_unix-Leaves os name most log =
    ground (arith, without-head (os.answer log socket_unix) (opened log))

accept_unix-Leaves :
    (os : System) (d : ℤ) (log : Log) → Leaves (opened log) (accept_unix os d log).0
unfolding accept_unix
accept_unix-Leaves os d log = ground (arith, without-head (os.answer log (accept d)) (opened log))

set_up_connection_unix-Leaves :
    (os : System) (own name : List ℕ) (log : Log)
    → Leaves (opened log) (set_up_connection_unix os own name log)
unfolding set_up_connection_unix
set_up_connection_unix-Leaves os own name log =
    ground (arith, without-head (os.answer log socket_unix) (opened log))

create_stream-Leaves : (os : System) (log : Log) → Leaves (opened log) (create_stream os log)
unfolding create_stream
create_stream-Leaves os log = ground (arith, without-head (os.answer log socket_inet) (opened log))

-- It gives back what `socket` gave, or an error.
create_stream-result :
    (os : System) (log : Log)
    → is_negative (create_stream os log).0 ≡ false
    → (create_stream os log).0 ≡ os.answer log socket_inet
unfolding create_stream
create_stream-result os log h = ground arith

set_block_mode-opened :
    (os : System) (fd : ℤ) (b : Bool) (log : Log)
    → opened (set_block_mode os fd b log).1 ≡ opened log
unfolding set_block_mode
set_block_mode-opened os fd b log = refl

listen_inet-Leaves :
    (os : System) (fd port most : ℤ) (b : Bool) (log : Log) (before : List ℤ)
    → opened log ≡ gained fd before
    → is_negative fd ≡ false
    → Leaves before (listen_inet os fd port most b log)
unfolding listen_inet set_block_mode
listen_inet-Leaves os fd port most b log before h n = ground (arith, without-head fd before)

set_up_listen_inet-Leaves :
    (os : System) (port most : ℤ) (b : Bool) (log : Log)
    → is_zero (os.answer log socket_inet) ≡ false
    → Leaves (opened log) (set_up_listen_inet os port most b log)
unfolding set_up_listen_inet
set_up_listen_inet-Leaves os port most b log z = ground (
  arith,
  create_stream-Leaves os log,
  create_stream-result os log,
  listen_inet-Leaves os (create_stream os log).0 port most b (create_stream os log).1 (opened log),
)

set_up_connection_inet-Leaves :
    (os : System) (host : Option (List ℕ)) (port : ℤ) (log : Log)
    → is_zero (os.answer log socket_inet) ≡ false
    → Leaves (opened log) (set_up_connection_inet os host port log)
unfolding set_up_connection_inet
set_up_connection_inet-Leaves os host port log z = ground (
  arith,
  create_stream-Leaves os log,
  create_stream-result os log,
  without-head (create_stream os log).0 (opened log),
)

-- A function that makes a socket opens one descriptor and returns it, or returns an error, a negative
-- number, and has closed what it opened; this holds if the system does not give 0 for an Internet socket.
pub set_up-opened :
    (os : System) (r : Request) (log : Log)
    → is_zero (os.answer log socket_inet) ≡ false
    → opened (set_up os r log).1 ≡ gained (set_up os r log).0 (opened log)
unfolding set_up accept_inet
set_up-opened os (listen_at_port port most b) log z = set_up_listen_inet-Leaves os port most b log z
set_up-opened os (connect_to_host host port) log z =
    set_up_connection_inet-Leaves os host port log z
set_up-opened os (accept_from_host d) log z = refl
set_up-opened os (listen_at_path name most) log z = set_up_listen_unix-Leaves os name most log
set_up-opened os (accept_from_path d) log z = accept_unix-Leaves os d log
set_up-opened os (connect_to_path own name) log z = set_up_connection_unix-Leaves os own name log

create_stream-zero :
    (os : System) (log : Log)
    → os.answer log socket_inet ≡ pos 0
    → ((l : Log) → is_negative (os.answer l (set_reuse (pos 0))) ≡ false)
    → (create_stream os log).0 ≡ pos 0
unfolding create_stream
create_stream-zero os log z ok = rw z (
    ground (
      arith,
      ok (
          (set_cloexec (pos 0), os.answer ((socket_inet, pos 0) ∷ log) (set_cloexec (pos 0)))
          ∷ (socket_inet, pos 0)
          ∷ log),
    ))

-- If the system gives 0 for an Internet socket and the option can be set, `setupListenSocket` and
-- `setupConnectionSocket` return -1 and leave that socket open.
pub zero_stays_open :
    (os : System) (port most : ℤ) (b : Bool) (host : Option (List ℕ)) (port' : ℤ) (log : Log)
    → os.answer log socket_inet ≡ pos 0
    → ((l : Log) → is_negative (os.answer l (set_reuse (pos 0))) ≡ false)
    → ((set_up os (listen_at_port port most b) log).0 ≡ minus 1)
      × (opened (set_up os (listen_at_port port most b) log).1 ≡ pos 0 ∷ opened log)
      × ((set_up os (connect_to_host host port') log).0 ≡ minus 1)
      × (opened (set_up os (connect_to_host host port') log).1 ≡ pos 0 ∷ opened log)
unfolding set_up set_up_listen_inet set_up_connection_inet
zero_stays_open os port most b host port' log z ok = (
  ground (arith, create_stream-zero os log z ok),
  ground (arith, create_stream-zero os log z ok, create_stream-Leaves os log),
  ground (arith, create_stream-zero os log z ok),
  ground (arith, create_stream-zero os log z ok, create_stream-Leaves os log),
)
