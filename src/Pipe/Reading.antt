-- ===== src/Pipe/Reading.antt =====
-- `read` of a named pipe: what it stores, what it returns and when.
use mathlib.Core.List.{append_assoc, append-nil}
use hodgepodge.Prelude.{
  ℕ, zero, suc, ◌+◌, ◌-◌, ◌≤◌, ◌<◌, ◌≡◌, refl, ap, ◌∙◌, Bool, true, false, List, [], ◌∷◌, ◌++◌,
  none, some, arith, length, length-append, pos, All,
}
use hodgepodge.Pipe.{
  ReadReply, read_now, read_later, fails_now, fails_later, ReadEnd, stored_by, error_of, read_loop,
  cached, read, read_end,
}

-- All that the answers store, in order.
abbrev pub payload : List ReadReply → List ℕ
payload [] = []
payload (r ∷ rs) = stored_by r ++ payload rs

-- What `ReadFile` documents: it stores no more than it was asked for, and an error has a number that is not 0.
abbrev pub IsFailure : ReadReply → Type 0
IsFailure (fails_now e) = 0 < e
IsFailure (fails_later e) = 0 < e
IsFailure r = Unit

abbrev pub Obeys : ℕ → List ReadReply → Type 0
Obeys zero rs = Unit
Obeys (suc l) [] = Unit
Obeys (suc l) (r ∷ rs) =
    (length (stored_by r) ≤ suc l) × IsFailure r × Obeys (suc l - length (stored_by r)) rs

-- How a blocking `read` of `n` bytes ends.
pub data Ends (n : ℕ) (d : ReadEnd) : Type 0 where
  full : d.error ≡ 0 → length d.stored ≡ n → Ends n d
  broken : 0 < d.error → length d.stored < n → Ends n d

stops_broken :
    (n l x : ℕ) (stored : List ℕ) (rs : List ReadReply) (d : ReadEnd)
    → length stored + suc l ≡ n
    → read_end (suc x) (stored ++ []) none rs ≡ some d
    → Ends n d × (d.cache_empty ≡ true) × (d.stored ++ payload d.rest ≡ stored ++ payload rs)
stops_broken n l x stored rs d e r = (
  broken (ground arith) (ground (arith, ap length (append-nil stored))),
  ground arith,
  ground (arith, append-nil stored),
)

read_loop-Ends :
    (n l : ℕ) (stored : List ℕ) (rs : List ReadReply) (d : ReadEnd)
    → length stored + l ≡ n
    → Obeys l rs
    → read_loop l stored rs ≡ some d
    → Ends n d × (d.cache_empty ≡ true) × (d.stored ++ payload d.rest ≡ stored ++ payload rs)
unfolding read_loop
read_loop-Ends n zero stored rs d e o r =
    (full (ground arith) (ground arith), ground arith, ground arith)
read_loop-Ends n (suc l) stored [] d e o r = cc
read_loop-Ends n (suc l) stored (read_now bs ∷ rs) d e (b, f, o) r =
    let (ending, empty, kept) =
      read_loop-Ends n (suc l - length bs) (stored ++ bs) rs d
        (omega (arith, length-append stored bs)) o r in
    (ending, empty, kept ∙ append_assoc stored bs (payload rs))
read_loop-Ends n (suc l) stored (read_later bs ∷ rs) d e (b, f, o) r =
    let (ending, empty, kept) =
      read_loop-Ends n (suc l - length bs) (stored ++ bs) rs d
        (omega (arith, length-append stored bs)) o r in
    (ending, empty, kept ∙ append_assoc stored bs (payload rs))
read_loop-Ends n (suc l) stored (fails_now zero ∷ rs) d e o r = absurd (omega (arith, o.1))
read_loop-Ends n (suc l) stored (fails_now (suc x) ∷ rs) d e o r =
    stops_broken n l x stored rs d e r
read_loop-Ends n (suc l) stored (fails_later zero ∷ rs) d e o r = absurd (omega (arith, o.1))
read_loop-Ends n (suc l) stored (fails_later (suc x) ∷ rs) d e o r =
    stops_broken n l x stored rs d e r

-- A blocking `read` of n bytes, n above 0, on a system that stores no more than it is asked for: where it
-- returns, it returns 0 and has stored n bytes, or it returns an error and has stored fewer; the cache is
-- empty; and what is stored, followed by what the unused answers hold, is the byte of the cache,
-- if it held one, followed by what all the answers hold, in order.
pub read-Ends :
    (empty : Bool) (byte0 n : ℕ) (rs : List ReadReply) (d : ReadEnd)
    → Obeys (suc n - length (cached empty byte0)) rs
    → read empty byte0 (pos (suc n)) rs ≡ some d
    → Ends (suc n) d
      × (d.cache_empty ≡ true)
      × (d.stored ++ payload d.rest ≡ cached empty byte0 ++ payload rs)
unfolding read
read-Ends true byte0 n rs d o r = read_loop-Ends (suc n) (suc n - 0) [] rs d (omega arith) o r
read-Ends false byte0 n rs d o r =
    read_loop-Ends (suc n) (suc n - 1) (byte0 ∷ []) rs d (omega arith) o r

-- No answer is an error.
abbrev pub IsCalm : ReadReply → Type 0
IsCalm r = error_of r ≡ 0

read_loop-calm :
    (l : ℕ) (stored : List ℕ) (rs : List ReadReply)
    → Obeys l rs
    → All IsCalm rs
    → l ≤ length (payload rs)
    → (d : ReadEnd) × (read_loop l stored rs ≡ some d) × (d.error ≡ 0)
unfolding read_loop
read_loop-calm zero stored rs o c h = (_, refl, refl)
read_loop-calm (suc l) stored [] o c h = absurd (omega arith)
read_loop-calm (suc l) stored (r ∷ rs) (b, f, o) c h =
    rw (c.0, read_loop)
      (read_loop-calm (suc l - length (stored_by r)) (stored ++ stored_by r) rs o c.1
        (omega (arith, length-append (stored_by r) (payload rs))))

-- Such a `read` returns 0, and has stored n bytes, if the answers are no errors and hold, with the
-- byte of the cache, at least n bytes.
pub read-calm :
    (empty : Bool) (byte0 n : ℕ) (rs : List ReadReply)
    → Obeys (suc n - length (cached empty byte0)) rs
    → All IsCalm rs
    → suc n ≤ length (cached empty byte0) + length (payload rs)
    → (d : ReadEnd) × (read empty byte0 (pos (suc n)) rs ≡ some d)
      × (d.error ≡ 0)
      × (length d.stored ≡ suc n)
unfolding read
read-calm empty byte0 n rs o c h =
    let start = cached empty byte0 in
    let (d, e, z) = read_loop-calm (suc n - length start) start rs o c (omega arith) in
    let (ending, clear, kept) = read-Ends empty byte0 n rs d o (unfold read in e) in
    (
      d,
      e,
      z,
      elim ending [ full zero_error size ↦ size | broken positive size ↦ absurd (omega arith) ],
    )
