-- ===== src/Tests/Passing.antt =====
-- The loops that pass descriptors, at concrete inputs.
use hodgepodge.Prelude.{
  ℕ, length, map, eq_int, if◌then◌else◌, ◌≡◌, refl, true, List, [], ◌∷◌, none, some, ℤ, pos, arith,
}
use hodgepodge.Socket.{eagain, is_transient}
use hodgepodge.Descriptors.{
  SendReply, accepted, send_failed, ReceiveReply, closed, passed, Done, send_loop, send_fds,
  receive_loop, receive_fds,
}
use hodgepodge.Descriptors.Sending.{SendEnds, send_fds-SendEnds}
use hodgepodge.Descriptors.Receiving.{receive_fds-send_fds}

abbrev three_fds : List ℤ
three_fds = pos 7 ∷ pos 8 ∷ pos 9 ∷ []

abbrev busy : List SendReply
busy = accepted ∷ send_failed eagain ∷ accepted ∷ []

abbrev two_sent : Done
two_sent = record { ret = pos 2; errno = none; done = pos 7 ∷ pos 8 ∷ [] }

two_sent_runs : send_fds (pos 4) (pos 2) (some three_fds) busy ≡ some two_sent
unfolding send_fds send_loop is_transient
two_sent_runs = refl

send_fds-SendEnds_example : SendEnds 2 three_fds two_sent
send_fds-SendEnds_example =
    send_fds-SendEnds 3 1 three_fds busy two_sent (omega arith) two_sent_runs

-- The receiver gets the numbers 12 and 4 for 7 and 8; a file is a number here.
abbrev sender_file : ℤ → ℕ
sender_file fd = if eq_int fd (pos 7) then 100 else 200

abbrev receiver_file : ℤ → ℕ
receiver_file fd = if eq_int fd (pos 12) then 100 else 200

receive_fds-send_fds_example :
    (stored : List ℤ) × (receive_fds (pos 6) (pos 2) true (passed (pos 12) ∷ passed (pos 4) ∷ [])
      ≡ some (record { ret = pos 2; errno = none; done = stored }))
    × (length stored ≡ 2)
    × (map receiver_file stored ≡ 100 ∷ 200 ∷ [])
receive_fds-send_fds_example =
    receive_fds-send_fds sender_file receiver_file 3 5 1 three_fds (pos 12 ∷ pos 4 ∷ []) busy
      two_sent (omega arith) two_sent_runs refl (tt, refl, (tt, refl, tt))

abbrev cut_short : List ReceiveReply
cut_short = passed (pos 7) ∷ closed ∷ passed (pos 8) ∷ []

abbrev one_received : Done
one_received = record { ret = pos 0; errno = none; done = pos 7 ∷ [] }

one_received_runs : receive_fds (pos 6) (pos 2) true cut_short ≡ some one_received
unfolding receive_fds receive_loop
one_received_runs = refl
