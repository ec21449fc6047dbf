-- ===== src/Socket/Write.antt =====
-- `writeSocket`: what it returns, and that the system gets the buffer's bytes, once and in order.
use mathlib.Core.List.{append_assoc, append-nil}
use hodgepodge.Prelude.{
  ℕ, zero, suc, ◌+◌, ◌-◌, ◌≤◌, ◌<◌, ◌≡◌, refl, ap, ◌∙◌, inl, inr, true, List, [], ◌∷◌, ◌++◌, some,
  arith, length, take, drop, take-append-drop, length-drop, eq-nil, pos, All, Bool-cases,
}
use hodgepodge.Socket.{
  is_transient, failure, WriteReply, wrote, write_failed, WriteDone, write_loop, write_socket,
}

-- What `write` documents: it takes no more bytes than it was given, while some are left.
abbrev pub ObeysWrite : ℕ → List WriteReply → Type 0
ObeysWrite zero rs = Unit
ObeysWrite (suc l) [] = Unit
ObeysWrite (suc l) (wrote k ∷ rs) = (k ≤ suc l) × ObeysWrite (suc l - k) rs
ObeysWrite (suc l) (write_failed e ∷ rs) = ObeysWrite (suc l) rs

abbrev pub taken_by : List WriteReply → ℕ
taken_by [] = 0
taken_by (wrote k ∷ rs) = k + taken_by rs
taken_by (write_failed e ∷ rs) = taken_by rs

abbrev pub IsCalmWrite : WriteReply → Type 0
IsCalmWrite (wrote k) = Unit
IsCalmWrite (write_failed e) = is_transient e ≡ true

-- How a transfer of `buffer` ends: all of it was sent, or a first part of it.
pub data WriteEnds (buffer : List ℕ) (d : WriteDone) : Type 0 where
  all_sent : d.ret ≡ pos (length buffer) → d.sent ≡ buffer → WriteEnds buffer d
  cut_short :
      (unsent : List ℕ)
      → d.ret ≡ failure
      → 0 < length unsent
      → d.sent ++ unsent ≡ buffer
      → WriteEnds buffer d

write_loop-WriteEnds :
    (buffer : List ℕ) (left : ℕ) (ptr sent : List ℕ) (rs : List WriteReply) (d : WriteDone)
    → length ptr ≡ left
    → sent ++ ptr ≡ buffer
    → ObeysWrite left rs
    → write_loop (length buffer) left ptr sent rs ≡ some d
    → WriteEnds buffer d
unfolding write_loop
write_loop-WriteEnds buffer zero ptr sent rs d e p o r =
    all_sent (ground arith) (ground (arith, eq-nil ptr e, append-nil sent))
write_loop-WriteEnds buffer (suc l) ptr sent [] d e p o r = cc
write_loop-WriteEnds buffer (suc l) ptr sent (wrote k ∷ rs) d e p o r =
    write_loop-WriteEnds buffer (suc l - k) (drop k ptr) (sent ++ take k ptr) rs d
      (omega (arith, length-drop k ptr))
      (append_assoc sent (take k ptr) (drop k ptr) ∙ ap (◌++◌ sent) (take-append-drop k ptr) ∙ p)
      o.1 r
write_loop-WriteEnds buffer (suc l) ptr sent (write_failed x ∷ rs) d e p o r =
    elim (Bool-cases (is_transient x)) [
      | inl again ↦
          write_loop-WriteEnds buffer (suc l) ptr sent rs d e p o (rw (again, write_loop) at r)
      | inr fatal ↦ cut_short ptr (ground (arith, fatal)) (omega arith) (ground (arith, fatal))
    ]

-- A call of `writeSocket` with a socket and a buffer that is not empty, on a system that never takes
-- more than it was given: where the call returns, it has sent the whole buffer and returns its size,
-- or it has sent a first part only and returns -1.
pub write_socket-WriteEnds :
    (socket b : ℕ) (bs : List ℕ) (rs : List WriteReply) (d : WriteDone)
    → ObeysWrite (length (b ∷ bs)) rs
    → write_socket (pos (suc socket)) (some (b ∷ bs)) (pos (length (b ∷ bs))) rs ≡ some d
    → WriteEnds (b ∷ bs) d
unfolding write_socket
write_socket-WriteEnds socket b bs rs d o r =
    write_loop-WriteEnds (b ∷ bs) (length (b ∷ bs)) (b ∷ bs) [] rs d refl refl o r

write_loop-calm :
    (n left : ℕ) (ptr sent : List ℕ) (rs : List WriteReply)
    → ObeysWrite left rs
    → All IsCalmWrite rs
    → left ≤ taken_by rs
    → (d : WriteDone) × (write_loop n left ptr sent rs ≡ some d) × (d.ret ≡ pos n)
unfolding write_loop
write_loop-calm n zero ptr sent rs o c h = (_, refl, ground arith)
write_loop-calm n (suc l) ptr sent [] o c h = absurd (omega arith)
write_loop-calm n (suc l) ptr sent (wrote k ∷ rs) o c h =
    write_loop-calm n (suc l - k) (drop k ptr) (sent ++ take k ptr) rs o.1 c.1 (omega arith)
write_loop-calm n (suc l) ptr sent (write_failed x ∷ rs) o c h =
    rw (c.0, write_loop) (write_loop-calm n (suc l) ptr sent rs o c.1 h)

-- A call of `writeSocket` with a socket and a buffer that is not empty, on a system that never takes more than it
-- was given, returns the buffer's size and has sent all of it, if the answers take at least as many bytes and
-- none of them is an error that ends the transfer.
pub write_socket-calm :
    (socket b : ℕ) (bs : List ℕ) (rs : List WriteReply)
    → ObeysWrite (length (b ∷ bs)) rs
    → All IsCalmWrite rs
    → length (b ∷ bs) ≤ taken_by rs
    → (d : WriteDone) × (write_socket (pos (suc socket)) (some (b ∷ bs)) (pos (length (b ∷ bs))) rs
        ≡ some d)
      × (d.ret ≡ pos (length (b ∷ bs)))
      × (d.sent ≡ b ∷ bs)
unfolding write_socket
write_socket-calm socket b bs rs o c h =
    let (d, e, r) = write_loop-calm (length (b ∷ bs)) (length (b ∷ bs)) (b ∷ bs) [] rs o c h in
    (d, e, r, whole d r (write_socket-WriteEnds socket b bs rs d o e))
  where
    whole : (d : WriteDone) → d.ret ≡ pos (length (b ∷ bs)) → WriteEnds (b ∷ bs) d → d.sent ≡ b ∷ bs
    whole d r (all_sent f s) = s
    whole d r (cut_short unsent f l s) = cc
