-- ===== src/Channel.antt =====
-- tipc.cpp on Windows: how `ipc_connection_win_namedpipe` learns that there are bytes to read. It keeps a
-- read of one byte, into its cache, in flight, and calls `on_read` when that completes.
pub mod Reads
pub mod Sound
pub mod Serving
pub mod Stream
use hodgepodge.Prelude.{
  ℕ, Bool, true, false, not, ◌&&◌, List, [], ◌∷◌, ◌++◌, Option, none, some, if◌then◌else◌, leb,
  ◌==◌, length, drop, ℤ,
}
use hodgepodge.Pipe.{ReadReply, ReadEnd, cached, read, poll}

-- A completion in the port's queue: of the read into the cache, with the bytes transferred and the
-- error, or the one that the connection posts itself with `m_error_overlapped`.
pub data Post : Type 0 where
  cache_read : ℕ → ℕ → Post
  cache_error : Post

-- The connection and its end of the pipe. `outstanding` says that a read into the cache is in
-- flight. `arrived` and `delivered` record the bytes that the peer wrote and those that the user has
-- read, and `closed` that `on_close` was called; no code reads these three.
pub record Channel : Type 0 where
  pub cache_byte0 : ℕ
  pub cache_empty : Bool
  pub error_offset : ℕ
  pub outstanding : Bool
  pub posted : List Post
  pub incoming : List ℕ
  pub broken : Bool
  pub arrived : List ℕ
  pub delivered : List ℕ
  pub closed : Bool

-- A step: it is made, it cannot be made now, or an assertion fails.
pub data Step : Type 0 where
  next : Channel → Step
  blocked : Step
  assert_fails : Step

infixl 5 ◌>>=◌
abbrev pub ◌>>=◌ : Step → (Channel → Step) → Step
next c >>= f = f c
blocked >>= f = blocked
assert_fails >>= f = assert_fails

-- How ReadFile answers: the read is made or in flight, and completes later in either case, or it
-- fails.
pub data Start : Type 0 where
  started : Start
  start_fails : ℕ → Start

-- A call of `read` in `on_read`, with the answers that it gets.
pub data Use : Type 0 where
  blocking : ℤ → List ReadReply → Use
  polling : ℤ → Option ℕ → List ReadReply → Use

-- `ERROR_BROKEN_PIPE`
abbrev pub broken_pipe : ℕ
broken_pipe = 109

-- `trigger_async_cache_read`
unfoldable pub trigger : Start → Channel → Step
trigger started c = if c.cache_empty then next (record c { outstanding = true }) else assert_fails
trigger (start_fails e) c =
    if c.cache_empty
    then next (record c { error_offset = e; posted = c.posted ++ cache_error ∷ [] })
    else assert_fails

-- What is left of the second list after the first.
unfoldable pub strip : List ℕ → List ℕ → Option (List ℕ)
strip [] ys = some ys
strip (x ∷ xs) [] = none
strip (x ∷ xs) (y ∷ ys) = if x == y then strip xs ys else none

-- The user gets what a read has stored; `blocked` if it waits, or if the answers are not what the
-- pipe holds.
unfoldable pub take_end : Option ReadEnd → Channel → Step
unfolding strip
take_end none c = blocked
take_end (some e) c =
    elim (strip (drop (length (cached c.cache_empty c.cache_byte0)) e.stored) c.incoming) [
      | none ↦ blocked
      | some left ↦ next (record c {
        cache_empty = e.cache_empty;
        incoming = left;
        delivered = c.delivered ++ e.stored;
      })
    ]

unfoldable pub use_one : Use → Channel → Step
unfolding take_end
use_one (blocking len rs) c = take_end (read c.cache_empty c.cache_byte0 len rs) c
use_one (polling len peek rs) c = take_end (poll c.cache_empty c.cache_byte0 len peek rs) c

unfoldable pub use_all : List Use → Channel → Step
unfolding use_one
use_all [] c = next c
use_all (u ∷ us) c = use_one u c >>= use_all us

-- The peer writes or goes; the system completes the read in flight; the service takes the next
-- completion, with what the user reads then and how the next read starts.
pub data Action : Type 0 where
  writes : List ℕ → Action
  breaks : Action
  completes : Action
  runs : List Use → Start → Action

-- The system has a byte for the read, or the pipe is broken, or it goes on waiting.
unfoldable pub complete : List ℕ → Channel → Step
complete [] c =
    if c.broken
    then next (record c { outstanding = false; posted = c.posted ++ cache_read 0 broken_pipe ∷ [] })
    else blocked
complete (b ∷ bs) c = next (record c {
  cache_byte0 = b;
  outstanding = false;
  posted = c.posted ++ cache_read 1 0 ∷ [];
  incoming = bs;
})

module _ (on_read on_close : Bool) where
  -- The end of `notify`: the user is called, must take the byte, and the next read is started.
  unfoldable pub call_user : List Use → Start → Channel → Step
  unfolding use_all trigger
  call_user us start c = (if on_read then use_all us c else next c) >>= λ after.
      if not c.cache_empty && not after.cache_empty then assert_fails else trigger start after

  -- `notify` for a completion of the cache or of an error.
  unfoldable pub notify : Post → List Use → Start → Channel → Step
  unfolding call_user
  notify (cache_read n e) us start c =
      let c' = if n == 1 then record c { cache_empty = false } else c in
      if not (leb n 1)
      then assert_fails
      else if on_close && (e == broken_pipe)
      then next (record c' { closed = true })
      else call_user us start c'
  notify cache_error us start c =
      if on_close && (c.error_offset == broken_pipe)
      then next (record c { closed = true })
      else call_user us start c

  unfoldable pub serve : List Post → List Use → Start → Channel → Step
  unfolding notify
  serve [] us start c = blocked
  serve (p ∷ ps) us start c = notify p us start (record c { posted = ps })

  unfoldable pub act : Action → Channel → Step
  unfolding complete serve
  act (writes bs) c =
      if c.broken
      then blocked
      else next (record c { incoming = c.incoming ++ bs; arrived = c.arrived ++ bs })
  act breaks c = next (record c { broken = true })
  act completes c = if c.outstanding then complete c.incoming c else blocked
  act (runs us start) c = serve c.posted us start c

  -- An action that cannot be made changes nothing; `none` is a failed assertion.
  unfoldable pub run : List Action → Channel → Option Channel
  unfolding act
  run [] c = some c
  run (a ∷ rest) c = elim (act a c) [
    | next c' ↦ run rest c'
    | blocked ↦ run rest c
    | assert_fails ↦ none
  ]

-- The connection after its constructor and its first `trigger_async_cache_read`.
unfoldable pub opened : Channel
opened = record {
  cache_byte0 = 0;
  cache_empty = true;
  error_offset = 0;
  outstanding = true;
  posted = [];
  incoming = [];
  broken = false;
  arrived = [];
  delivered = [];
  closed = false;
}
