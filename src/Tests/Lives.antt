-- ===== src/Tests/Lives.antt =====
-- The life of a connection of tipc.cpp, on systems that answer in a fixed way.
use hodgepodge.Prelude.{◌≡◌, refl, true, false, [], ◌∷◌, none, ℤ, pos, arith}
use hodgepodge.SetUp.{Call, socket_unix, accept, System}
use hodgepodge.SetUp.Opened.{opened, without}
use hodgepodge.Ipc.{start}
use hodgepodge.Ipc.Handles.{view, IsValid}
use hodgepodge.Connection.{Connection, Callbacks, construct, destroy, notify}
use hodgepodge.Connection.Life.{handed, notify-opened, destroy-view, construct-opened, Holds}
use hodgepodge.Tests.Handles.{cleared, cleared-length}

-- Sockets and clients are given the number 6, names can be bound, and a client's path is a file but no socket.
abbrev answer_six : Call → ℤ
answer_six socket_unix = pos 6
answer_six (accept d) = pos 6
answer_six c = pos 0

abbrev no_socket : System
no_socket = record {
  answer = λ log c. answer_six c;
  peer = λ log. 1 ∷ [];
  is_sock = λ log. false;
  owner = λ log. 0;
}

abbrev server : Connection
server = record {
  self = 1;
  fd = pos 5;
  listening = true;
  service = start cleared;
  log = (socket_unix, pos 5) ∷ [];
}

abbrev all_set : Callbacks
all_set = record { on_accept = true; on_close = true; on_read = true }

abbrev none_set : Callbacks
none_set = record { on_accept = false; on_close = false; on_read = false }

cleared-IsValid : IsValid (start cleared)
unfolding start
cleared-IsValid = cleared-length

notify-opened_example :
    opened (notify no_socket all_set true false 2 server).0.log
    ≡ handed (notify no_socket all_set true false 2 server).1 (pos 5 ∷ [])
notify-opened_example = notify-opened no_socket all_set true false 2 server refl

destroy-view_example :
    (opened (destroy no_socket server).log ≡ without (pos 5) (pos 5 ∷ []))
    × (view (destroy no_socket server).service (pos 5) ≡ none)
destroy-view_example =
    destroy-view no_socket server (pos 5) cleared-IsValid (omega arith) (omega arith) refl

construct-opened_example :
    (opened (construct no_socket 3 [] (start cleared) []).1 ≡ pos 6 ∷ [])
    × Holds (pos 6) (construct no_socket 3 [] (start cleared) []).0
construct-opened_example = construct-opened no_socket 3 [] (start cleared) []
