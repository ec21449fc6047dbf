-- ===== src/Tests/Sockets.antt =====
-- SocketHelper.cpp at concrete inputs.
use hodgepodge.Prelude.{◌≡◌, refl, true, List, [], ◌∷◌, ◌++◌, some, arith, pos}
use hodgepodge.Socket.{
  eintr, epipe, is_transient, failure, got, read_failed, ReadReply, ReadDone, read_socket, wrote,
  write_failed, WriteReply, WriteDone, write_loop, write_socket,
}
use hodgepodge.Socket.Read.{Ends, payload, read_socket-Ends, read_socket-calm}
use hodgepodge.Socket.Write.{WriteEnds, write_socket-WriteEnds, write_socket-calm}

-- Three bytes in two answers, with a signal between them; the fourth byte is for a later call.
abbrev two_answers : List ReadReply
two_answers = got (1 ∷ 2 ∷ []) ∷ read_failed eintr ∷ got (3 ∷ []) ∷ got (4 ∷ []) ∷ []

abbrev three_read : ReadDone
three_read = record { ret = pos 3; stored = 1 ∷ 2 ∷ 3 ∷ []; rest = got (4 ∷ []) ∷ [] }

three_read_runs : read_socket (pos 5) true (pos 3) two_answers ≡ some three_read
unfolding read_socket
three_read_runs = refl

read_socket-Ends_example :
    Ends 3 two_answers three_read
    × (three_read.stored ++ payload three_read.rest ≡ 1 ∷ 2 ∷ 3 ∷ 4 ∷ [])
read_socket-Ends_example =
    read_socket-Ends 4 2 two_answers three_read (omega arith, (omega arith, tt)) three_read_runs

abbrev three_answers : List ReadReply
three_answers = got (1 ∷ 2 ∷ []) ∷ read_failed eintr ∷ got (3 ∷ []) ∷ []

read_socket-calm_example :
    (d : ReadDone) × (read_socket (pos 5) true (pos 3) three_answers ≡ some d)
    × (d.ret ≡ pos 3)
    × (d.stored ≡ 1 ∷ 2 ∷ 3 ∷ [])
unfolding is_transient
read_socket-calm_example =
    read_socket-calm 4 2 three_answers (omega arith, (omega arith, tt)) (tt, (refl, (tt, tt)))
      (omega arith)

abbrev broken_pipe : List WriteReply
broken_pipe = wrote 1 ∷ write_failed epipe ∷ []

abbrev one_sent : WriteDone
one_sent = record { ret = failure; sent = 8 ∷ []; rest = [] }

one_sent_runs : write_socket (pos 5) (some (8 ∷ 9 ∷ [])) (pos 2) broken_pipe ≡ some one_sent
unfolding write_socket write_loop
one_sent_runs = refl

write_socket-WriteEnds_example : WriteEnds (8 ∷ 9 ∷ []) one_sent
write_socket-WriteEnds_example =
    write_socket-WriteEnds 4 8 (9 ∷ []) broken_pipe one_sent (omega arith, tt) one_sent_runs

abbrev two_writes : List WriteReply
two_writes = wrote 1 ∷ wrote 0 ∷ write_failed eintr ∷ wrote 1 ∷ []

write_socket-calm_example :
    (d : WriteDone) × (write_socket (pos 5) (some (8 ∷ 9 ∷ [])) (pos 2) two_writes ≡ some d)
    × (d.ret ≡ pos 2)
    × (d.sent ≡ 8 ∷ 9 ∷ [])
unfolding is_transient
write_socket-calm_example =
    write_socket-calm 4 8 (9 ∷ []) two_writes (omega arith, (omega arith, (omega arith, tt)))
      (tt, (tt, (refl, (tt, tt)))) (omega arith)
