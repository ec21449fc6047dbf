-- ===== src/Tests/Dispatches.antt =====
-- The loops of the service at concrete inputs.
use hodgepodge.Prelude.{◌≡◌, refl, true, map, List, [], ◌∷◌, ℕ, some, pos, arith, All}
use hodgepodge.Ipc.{Service, Request, connected, gone, serve_all, start}
use hodgepodge.Dispatch.{Event, run_batch}
use hodgepodge.Dispatch.Batch.{notified, run_batch-notified}
use hodgepodge.Ipc.Registered.{
  registered, connection_of, connection_after, HasInt, map_and_epoll_agree,
}
use hodgepodge.Tests.Handles.{cleared, cleared-length, cleared-get_or}

abbrev two_connected : List Request
two_connected = connected (pos 5) 1 ∷ connected (pos 2000) 2 ∷ []

-- The first connection accepts a third.
abbrev two_reports : List Event
two_reports =
    record { fd = pos 5; asked = connected (pos 9) 3 ∷ [] }
    ∷ record { fd = pos 2000; asked = gone (pos 2000) ∷ [] }
    ∷ []

ints : All HasInt two_connected
ints = (omega arith, (omega arith, tt))

first_registered : registered (pos 5) (serve_all two_connected (start cleared)) ≡ true
unfolding connection_after connection_of
first_registered =
    (map_and_epoll_agree two_connected cleared (pos 5) cleared-length cleared-get_or ints
      (omega arith) refl).1

second_registered : registered (pos 2000) (serve_all two_connected (start cleared)) ≡ true
unfolding connection_after connection_of
second_registered =
    (map_and_epoll_agree two_connected cleared (pos 2000) cleared-length cleared-get_or ints
      (omega arith) refl).1

run_batch-notified_example :
    (cs : List ℕ) × (last : Service) × (run_batch two_reports
        (serve_all two_connected (start cleared))
      ≡ some (cs, last))
    × (map some cs ≡ some 1 ∷ some 2 ∷ [])
unfolding notified connection_after connection_of
run_batch-notified_example =
    run_batch-notified cleared cleared-length cleared-get_or two_connected two_reports ints
      ((omega arith, refl, (omega arith, tt)), ((omega arith, refl, (omega arith, tt)), tt))
      (((tt, tt), tt), (tt, tt)) (first_registered, (second_registered, tt))
