-- ===== src/PipeServer/Handles.antt =====
-- The end of a named pipe connection.
use hodgepodge.Prelude.{◌≡◌, refl, false, ◌∷◌, none, if◌then◌else◌, ℤ, eq_int, arith, IsInt}
use hodgepodge.SetUp.Opened.{without}
use hodgepodge.Ipc.{invalid, erase}
use hodgepodge.Ipc.Handles.{view, IsValid, view-erase}
use hodgepodge.PipeServer.{
  close_handle, System, World, returns, Pipe, unassociate, close_pipe, destroy,
}
use hodgepodge.PipeServer.Accept.{open_handles}

-- Where the handles are each an `int` and the service's fast map has its size, destroying a connection with an
-- open handle returns, closes its event and its handle, and takes its handle, and no other, out of the
-- service's map.
pub destroy-closes :
    (os : System) (p : Pipe) (k : ℤ) (w : World)
    → IsValid w.service
    → IsInt p.oshd
    → IsInt k
    → eq_int p.oshd invalid ≡ false
    → (p' : Pipe) × (w' : World) × (destroy os p w ≡ returns p' w')
      × (p'.oshd ≡ invalid)
      × (view w'.service k ≡ (if eq_int p.oshd k then none else view w.service k))
      × (open_handles w'.log ≡ without p.oshd (without p.event (open_handles w.log)))
unfolding destroy close_pipe unassociate
destroy-closes os p k w v i j n =
    let log1 = (close_handle p.event, os w.log (close_handle p.event)) ∷ w.log in
    (
      record p { oshd = invalid },
      record {
        service = erase p.oshd w.service;
        log = (close_handle p.oshd, os log1 (close_handle p.oshd)) ∷ log1;
      },
      ground (arith, n),
      refl,
      view-erase w.service p.oshd k v i j,
      refl,
    )

-- A connection that was closed is destroyed without another step on its handle or its entry.
pub destroy-closed :
    (os : System) (p : Pipe) (w : World)
    → p.oshd ≡ invalid
    → destroy os p w
      ≡ returns p
          (record w { log = (close_handle p.event, os w.log (close_handle p.event)) ∷ w.log })
unfolding destroy close_pipe
destroy-closed os p w e = ground (arith, e)
