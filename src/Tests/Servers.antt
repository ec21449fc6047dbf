-- ===== src/Tests/Servers.antt =====
-- The handles of a named pipe server at concrete inputs.
use hodgepodge.Prelude.{refl, true, [], pos, arith, IsInt}
use hodgepodge.Ipc.{start}
use hodgepodge.Ipc.Handles.{IsValid}
use hodgepodge.PipeServer.{Call, Log, World, Pipe, create_event, create_pipe, System, accept_client}
use hodgepodge.PipeServer.Accept.{Returns, Accepts, accept_client-Accepts}
use hodgepodge.Tests.Handles.{cleared, cleared-length}

-- Each call succeeds.
abbrev succeeding : System
succeeding l create_event = pos 6
succeeding l (create_pipe name) = pos 7
succeeding l c = pos 0

succeeding-IsInt : (l : Log) (c : Call) → IsInt (succeeding l c)
succeeding-IsInt l create_event = omega arith
succeeding-IsInt l (create_pipe name) = omega arith
succeeding-IsInt l c = omega arith

abbrev before : World
before = record { service = start cleared; log = [] }

before-IsValid : IsValid before.service
unfolding start
before-IsValid = cleared-length

abbrev server : Pipe
server = record { self = 1; oshd = pos 5; event = pos 6; name = []; cache_empty = true }

accept_client-Accepts_example :
    Returns
      (Accepts (pos 5) before 2 server succeeding)
      (accept_client succeeding true 2 server before)
accept_client-Accepts_example =
    accept_client-Accepts succeeding 2 server (pos 5) before succeeding-IsInt before-IsValid
      (omega arith) (omega arith) refl
