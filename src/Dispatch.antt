-- ===== src/Dispatch.antt =====
-- tipc.cpp: the loops of `ipc_io_service::run`, which hand what the system reports to the connections.
pub mod Batch
pub mod Port
use hodgepodge.Prelude.{
  ℕ, Bool, true, false, List, [], ◌∷◌, ◌++◌, Option, none, some, if◌then◌else◌, ℤ,
}
use hodgepodge.Ipc.{Service, get, Request, serve_all}

-- On Linux: a report of `epoll_wait` for a handle, with what its connection's `notify` makes the
-- connections ask of the service.
pub record Event : Type 0 where
  pub fd : ℤ
  pub asked : List Request

-- One batch of reports: the connections that are notified, in order; `none` if the assertion on the
-- connection fails.
unfoldable pub run_batch : List Event → Service → Option (List ℕ × Service)
run_batch [] s = some ([], s)
run_batch (e ∷ es) s =
    let (s', pconn) = get e.fd s in
    elim pconn [
      | none ↦ none
      | some c ↦ elim (run_batch es (serve_all e.asked s')) [
        | none ↦ none
        | some (cs, last) ↦ some (c ∷ cs, last)
      ]
    ]

-- The loop over the batches, until `m_exit` is set: the flag is read before each.
unfoldable pub run_linux : List (Bool × List Event) → Service → Option (List ℕ × Service)
unfolding run_batch
run_linux [] s = some ([], s)
run_linux ((true, es) ∷ rest) s = some ([], s)
run_linux ((false, es) ∷ rest) s = elim (run_batch es s) [
  | none ↦ none
  | some (cs, s') ↦ elim (run_linux rest s') [
    | none ↦ none
    | some (ds, last) ↦ some (cs ++ ds, last)
  ]
]

-- On Windows: what `GetQueuedCompletionStatus` gives. A packet is for a handle, and its operation may
-- have an event, which a blocking transfer waits for itself.
pub data Got : Type 0 where
  abandoned : Got
  timed_out : Got
  packet : ℤ → Bool → List Request → Got

-- The loop, until the port is abandoned or the list ends, which stands for `m_exit`.
unfoldable pub run_port : List Got → Service → Option (List ℕ × Service)
run_port [] s = some ([], s)
run_port (abandoned ∷ gs) s = some ([], s)
run_port (timed_out ∷ gs) s = run_port gs s
run_port (packet fd true asked ∷ gs) s = run_port gs s
run_port (packet fd false asked ∷ gs) s =
    let (s', pconn) = get fd s in
    elim pconn [
      | none ↦ none
      | some c ↦ elim (run_port gs (serve_all asked s')) [
        | none ↦ none
        | some (cs, last) ↦ some (c ∷ cs, last)
      ]
    ]
