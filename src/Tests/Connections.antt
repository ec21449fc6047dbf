-- ===== src/Tests/Connections.antt =====
-- The strings and transfers of the Unix socket connections of tipc.cpp, at concrete inputs.
use hodgepodge.Prelude.{◌≡◌, true, false, List, [], ◌∷◌, ℕ, length, some, pos, arith}
use hodgepodge.Socket.{
  eintr, epipe, ReadReply, got, read_failed, WriteReply, wrote, write_failed, read_socket,
}
use hodgepodge.Uds.{string_copy, read}
use hodgepodge.Uds.Strings.{c_string, string_copy-c_string}
use hodgepodge.Uds.Transfers.{SameRead, read-SameRead}

-- Three of five characters fit an array of four.
string_copy-c_string_example :
    (d : List ℕ) × (string_copy (9 ∷ 9 ∷ 9 ∷ 9 ∷ []) (1 ∷ 2 ∷ 3 ∷ 4 ∷ 5 ∷ []) 1 ≡ some (d, 3))
    × (c_string d ≡ 2 ∷ 3 ∷ 4 ∷ [])
    × (length d ≡ 4)
string_copy-c_string_example =
    string_copy-c_string (9 ∷ 9 ∷ 9 ∷ 9 ∷ []) (1 ∷ 2 ∷ 3 ∷ 4 ∷ 5 ∷ []) 1
      (omega arith, (omega arith, (omega arith, (omega arith, (omega arith, tt))))) (omega arith)
      (omega arith)

-- The file ends after one of three bytes.
abbrev short_file : List ReadReply
short_file = got (1 ∷ []) ∷ read_failed eintr ∷ got [] ∷ []

read-SameRead_example :
    SameRead
      (read false (pos 5) true (pos 3) short_file)
      (read_socket (pos 5) true (pos 3) short_file)
read-SameRead_example = read-SameRead (pos 5) true (pos 3) short_file

abbrev torn_pipe : List WriteReply
torn_pipe = wrote 1 ∷ write_failed epipe ∷ []
