-- ===== src/Connection/Life.antt =====
-- The descriptors that a connection opens and closes, and its entry in the service.
use hodgepodge.Prelude.{
  ℕ, ◌≡◌, refl, Bool, true, false, List, ◌∷◌, Option, none, some, if◌then◌else◌, ℤ, pos, negsuc,
  arith, IsInt, eq_int,
}
use hodgepodge.SetUp.{socket_unix, accept, Log, System, is_negative}
use hodgepodge.SetUp.Opened.{opened, without, without-head, gained}
use hodgepodge.Ipc.{Service, invalid, unassociate}
use hodgepodge.Ipc.Handles.{view, IsValid, view-unassociate}
use hodgepodge.Connection.{
  Connection, Callbacks, Called, accepted, closed, read, construct, close_connection, destroy,
  accept_client, notify,
}

-- What a call of a callback hands over.
abbrev pub handed : Option Called → List ℤ → List ℤ
handed none ds = ds
handed (some (accepted fd)) ds = fd ∷ ds
handed (some closed) ds = ds
handed (some read) ds = ds

-- With `on_accept` set, `notify` leaves open what was open, and the descriptor of the new connection
-- if it hands one to `on_accept`.
pub notify-opened :
    (os : System) (calls : Callbacks) (input hangup : Bool) (self : ℕ) (c : Connection)
    → calls.on_accept ≡ true
    → opened (notify os calls input hangup self c).0.log
      ≡ handed (notify os calls input hangup self c).1 (opened c.log)
unfolding notify accept_client
notify-opened os calls input hangup self c h =
    ground (arith, without-head (os.answer c.log (accept c.fd)) (opened c.log))

-- On a listening connection with no `on_accept`, a client that the system accepts stays open, and no
-- connection is made for it.
notify_loses_client :
    (os : System) (calls : Callbacks) (hangup : Bool) (self : ℕ) (c : Connection)
    → c.listening ≡ true
    → calls.on_accept ≡ false
    → is_negative (os.answer c.log (accept c.fd)) ≡ false
    → (opened (notify os calls true hangup self c).0.log
        ≡ os.answer c.log (accept c.fd) ∷ opened c.log)
      × ((notify os calls true hangup self c).1 ≡ none)
unfolding notify accept_client
notify_loses_client os calls hangup self c l a n = (ground arith, ground arith)

open_handle : (fd : ℤ) → is_negative fd ≡ false → eq_int fd invalid ≡ false
open_handle (pos n) h = refl
open_handle (negsuc n) h = cc

-- Where the handles are each an `int` and the service's fast map has its size, destroying an open
-- connection closes its descriptor, and takes its handle, and no other, out of the
-- service's map.
pub destroy-view :
    (os : System) (c : Connection) (k : ℤ)
    → IsValid c.service
    → IsInt c.fd
    → IsInt k
    → is_negative c.fd ≡ false
    → (opened (destroy os c).log ≡ without c.fd (opened c.log))
      × (view (destroy os c).service k ≡ (if eq_int c.fd k then none else view c.service k))
unfolding destroy close_connection
destroy-view os c k v h i n =
    (ground arith, ground (arith, view-unassociate c.service c.fd k v h i (open_handle c.fd n)))

-- If an open connection is closed before it is destroyed, the service keeps the entry that it had.
pub close_keeps_entry :
    (os : System) (c : Connection) (k : ℤ)
    → is_negative c.fd ≡ false
    → view (destroy os (close_connection os c)).service k ≡ view c.service k
unfolding destroy close_connection unassociate
close_keeps_entry os c k n = ground arith

-- A connection, if one is made, has the descriptor.
abbrev pub Holds : ℤ → Option Connection → Type 0
Holds fd none = Unit
Holds fd (some c) = c.fd ≡ fd

-- The constructor opens one descriptor if `socket` gives one, and closes none: a connection that it
-- makes has that descriptor, and if it throws after `socket` gave it, it leaves it open.
pub construct-opened :
    (os : System) (self : ℕ) (path : List ℕ) (service : Service) (log : Log)
    → (opened (construct os self path service log).1
        ≡ gained (os.answer log socket_unix) (opened log))
      × Holds (os.answer log socket_unix) (construct os self path service log).0
unfolding construct
construct-opened os self path service log = (ground arith, ground arith)
