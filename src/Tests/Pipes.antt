-- ===== src/Tests/Pipes.antt =====
-- The transfers of named pipes, and the pipe that calls its user, at concrete inputs.
use hodgepodge.Prelude.{◌≡◌, refl, true, false, List, [], ◌∷◌, ◌++◌, some, none, pos, arith}
use hodgepodge.Pipe.{
  ReadReply, read_now, read_later, fails_later, WriteReply, wrote_later, refused_later, read, poll,
  write, cached, ReadEnd, WriteEnd,
}
use hodgepodge.Pipe.Reading
use hodgepodge.Pipe.Reading.{payload, read-Ends}
use hodgepodge.Pipe.Writing
use hodgepodge.Pipe.Writing.{write-Ends}
use hodgepodge.Channel.{
  blocking, polling, Action, writes, breaks, completes, runs, run, opened, Channel, started,
  start_fails,
}
use hodgepodge.Channel.Sound.{IsSound}
use hodgepodge.Channel.Stream.{channel-IsSound}

-- The cache holds a byte, two come at once, and then the pipe breaks.
abbrev torn_read : List ReadReply
torn_read = read_now (2 ∷ 3 ∷ []) ∷ fails_later 109 ∷ read_later (9 ∷ []) ∷ []

abbrev torn_end : ReadEnd
torn_end = record {
  error = 109;
  stored = 1 ∷ 2 ∷ 3 ∷ [];
  count = none;
  cache_empty = true;
  rest = read_later (9 ∷ []) ∷ [];
}

torn_read_ends : read false 1 (pos 5) torn_read ≡ some torn_end
unfolding read
torn_read_ends = refl

read-Ends_example :
    Reading.Ends 5 torn_end
    × (torn_end.cache_empty ≡ true)
    × (torn_end.stored ++ payload torn_end.rest ≡ cached false 1 ++ payload torn_read)
read-Ends_example =
    read-Ends false 1 4 torn_read torn_end
      (omega arith, tt, (omega arith, omega arith, (omega arith, tt, tt))) torn_read_ends

abbrev two_writes : List WriteReply
two_writes = wrote_later 2 ∷ refused_later 232 ∷ []

abbrev part_sent : WriteEnd
part_sent = record { error = 232; sent = 7 ∷ 8 ∷ []; rest = [] }

two_writes_end : write (7 ∷ 8 ∷ 9 ∷ []) (pos 3) two_writes ≡ some part_sent
unfolding write
two_writes_end = refl

write-Ends_example : Writing.Ends (7 ∷ 8 ∷ 9 ∷ []) part_sent
write-Ends_example =
    write-Ends (7 ∷ 8 ∷ 9 ∷ []) two_writes part_sent (omega arith, omega arith) two_writes_end

-- The peer writes three bytes, of which the first two are read in one callback and the third in another, and goes.
abbrev three_bytes : List Action
three_bytes =
    writes (4 ∷ 5 ∷ 6 ∷ [])
    ∷ completes
    ∷ runs (blocking (pos 2) (read_now (5 ∷ []) ∷ []) ∷ []) started
    ∷ completes
    ∷ breaks
    ∷ runs (polling (pos 4) (some 0) [] ∷ []) (start_fails 109)
    ∷ runs [] started
    ∷ []

three_bytes_end : Channel
three_bytes_end = record {
  cache_byte0 = 6;
  cache_empty = true;
  error_offset = 109;
  outstanding = false;
  posted = [];
  incoming = [];
  broken = true;
  arrived = 4 ∷ 5 ∷ 6 ∷ [];
  delivered = 4 ∷ 5 ∷ 6 ∷ [];
  closed = true;
}

three_bytes-run : run true true three_bytes opened ≡ some three_bytes_end
unfolding run opened three_bytes_end read poll
three_bytes-run = refl

channel-IsSound_example : (d : Channel) × (run true true three_bytes opened ≡ some d) × IsSound d
unfolding run opened read poll
channel-IsSound_example =
    channel-IsSound true three_bytes (tt, (tt, (tt, (tt, (tt, (tt, (refl, tt)))))))
