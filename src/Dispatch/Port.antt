-- ===== src/Dispatch/Port.antt =====
-- The loop on Windows against the loop on Linux.
use hodgepodge.Prelude.{ℕ, ◌≡◌, refl, true, false, List, [], ◌∷◌, Option, none, some, arith}
use hodgepodge.Ipc.{Service, get, serve_all}
use hodgepodge.Dispatch.{Event, run_batch, Got, abandoned, timed_out, packet, run_port}

-- The packets that are for a connection, up to the end of the port.
unfoldable pub for_connections : List Got → List Event
for_connections [] = []
for_connections (abandoned ∷ gs) = []
for_connections (timed_out ∷ gs) = for_connections gs
for_connections (packet fd true asked ∷ gs) = for_connections gs
for_connections (packet fd false asked ∷ gs) =
    record { fd = fd; asked = asked } ∷ for_connections gs

abbrev Handled : Type 0
Handled = Option (List ℕ × Service)

abbrev before : ℕ → Handled → Handled
before c none = none
before c (some (cs, last)) = some (c ∷ cs, last)

-- The loop on Windows notifies the connections that a batch of the same reports notifies on Linux: it
-- passes over timeouts and the packets of blocking transfers, and stops where the port is abandoned.
pub run_port-run_batch :
    (gs : List Got) (s : Service) → run_port gs s ≡ run_batch (for_connections gs) s
unfolding run_port run_batch for_connections
run_port-run_batch [] s = refl
run_port-run_batch (abandoned ∷ gs) s = refl
run_port-run_batch (timed_out ∷ gs) s = run_port-run_batch gs s
run_port-run_batch (packet fd true asked ∷ gs) s = run_port-run_batch gs s
run_port-run_batch (packet fd false asked ∷ gs) s =
    ground (arith, run_port-run_batch gs (serve_all asked (get fd s).0))
