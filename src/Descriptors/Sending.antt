-- ===== src/Descriptors/Sending.antt =====
-- `sendFdsThroughSocket`: what it has sent, what it returns and when it returns.
use hodgepodge.Prelude.{
  ℕ, zero, suc, ◌+◌, ◌≤◌, ◌<◌, ◌≡◌, refl, ap, ◌∙◌, inl, inr, true, false, List, [], ◌∷◌, ◌++◌,
  Option, some, arith, length, take, get_or, ℤ, pos, All, Bool-cases,
}
use hodgepodge.Socket.{Errno, is_transient, failure}
use hodgepodge.Descriptors.{SendReply, accepted, send_failed, Done, send_loop, send_fds, done_with}

-- How a call that sends `n` descriptors ends.
pub data SendEnds (n : ℕ) (fds : List ℤ) (d : Done) : Type 0 where
  all_sent : d.ret ≡ pos n → d.done ≡ take n fds → SendEnds n fds d
  sent_before :
      (k : ℕ) (e : Errno)
      → k < n
      → d.ret ≡ failure
      → d.errno ≡ some e
      → is_transient e ≡ false
      → d.done ≡ take k fds
      → SendEnds n fds d

-- Where a call stops.
pub stops :
    (r : ℤ) (e : Option Errno) (ds : List ℤ) (d : Done)
    → done_with r e ds ≡ some d
    → (d.ret ≡ r) × (d.errno ≡ e) × (d.done ≡ ds)
stops r e ds d h = (ground arith, ground arith, ground arith)

take_snoc :
    (fds : List ℤ) (k : ℕ) (v : ℤ)
    → k < length fds
    → take k fds ++ get_or fds k v ∷ [] ≡ take (suc k) fds
take_snoc [] k v h = absurd (omega arith)
take_snoc (x ∷ fds) zero v h = refl
take_snoc (x ∷ fds) (suc k) v h = ap (◌∷◌ x) (take_snoc fds k v (omega arith))

send_loop-SendEnds :
    (n : ℕ) (fds : List ℤ) (left cnt : ℕ) (sent : List ℤ) (rs : List SendReply) (d : Done)
    → n ≤ length fds
    → cnt + left ≡ n
    → sent ≡ take cnt fds
    → send_loop fds left cnt sent rs ≡ some d
    → SendEnds n fds d
unfolding send_loop
send_loop-SendEnds n fds zero cnt sent rs d b e s r =
    let (ret, errno, done) = stops _ _ _ _ r in
    all_sent (ground arith) (done ∙ s ∙ ap (λ k. take k fds) (omega arith))
send_loop-SendEnds n fds (suc l) cnt sent [] d b e s r = cc
send_loop-SendEnds n fds (suc l) cnt sent (accepted ∷ rs) d b e s r =
    send_loop-SendEnds n fds l (suc cnt) _ rs d b (omega arith)
      (ap (λ z. z ++ get_or fds cnt failure ∷ []) s ∙ take_snoc fds cnt failure (omega arith)) r
send_loop-SendEnds n fds (suc l) cnt sent (send_failed x ∷ rs) d b e s r =
    elim (Bool-cases (is_transient x)) [
      | inl again ↦
          send_loop-SendEnds n fds (suc l) cnt sent rs d b e s (rw (again, send_loop) at r)
      | inr fatal ↦
          let (ret, errno, done) = stops _ _ _ _ (rw (fatal, send_loop) at r) in
          sent_before cnt x (omega arith) ret errno fatal (done ∙ s)
    ]

-- A call of `sendFdsThroughSocket` with a socket, n above 0 and an array of at least n descriptors:
-- where it returns, it has sent the first n in their order and returns n, or it has sent the first k
-- for some k below n and returns -1 with an `errno` that does not ask to try again.
pub send_fds-SendEnds :
    (socket n : ℕ) (fds : List ℤ) (rs : List SendReply) (d : Done)
    → suc n ≤ length fds
    → send_fds (pos (suc socket)) (pos (suc n)) (some fds) rs ≡ some d
    → SendEnds (suc n) fds d
unfolding send_fds
send_fds-SendEnds socket n fds rs d b r =
    send_loop-SendEnds (suc n) fds (suc n) 0 [] rs d b (omega arith) refl r

abbrev pub accepts : List SendReply → ℕ
accepts [] = 0
accepts (accepted ∷ rs) = suc (accepts rs)
accepts (send_failed e ∷ rs) = accepts rs

-- No error that ends the transfer.
abbrev pub SendIsCalm : SendReply → Type 0
SendIsCalm accepted = Unit
SendIsCalm (send_failed e) = is_transient e ≡ true

send_loop-calm :
    (fds : List ℤ) (left cnt : ℕ) (sent : List ℤ) (rs : List SendReply)
    → All SendIsCalm rs
    → left ≤ accepts rs
    → (d : Done) × (send_loop fds left cnt sent rs ≡ some d) × (d.ret ≡ pos (cnt + left))
unfolding send_loop
send_loop-calm fds zero cnt sent rs c h = (_, refl, ground arith)
send_loop-calm fds (suc l) cnt sent [] c h = absurd (omega arith)
send_loop-calm fds (suc l) cnt sent (accepted ∷ rs) c h =
    let (d, e, r) =
      send_loop-calm fds l (suc cnt) (sent ++ get_or fds cnt failure ∷ []) rs c.1 (omega arith) in
    (d, e, r ∙ ap pos (omega arith))
send_loop-calm fds (suc l) cnt sent (send_failed x ∷ rs) c h =
    let (d, e, r) = send_loop-calm fds (suc l) cnt sent rs c.1 (omega arith) in
    (d, rw (c.0, send_loop) e, r)

-- `sendFdsThroughSocket` returns n, and has sent the first n descriptors of the array, if the system
-- accepts at least n messages and no error ends the transfer.
send_fds-calm :
    (socket n : ℕ) (fds : List ℤ) (rs : List SendReply)
    → suc n ≤ length fds
    → All SendIsCalm rs
    → suc n ≤ accepts rs
    → (d : Done) × (send_fds (pos (suc socket)) (pos (suc n)) (some fds) rs ≡ some d)
      × (d.ret ≡ pos (suc n))
      × (d.done ≡ take (suc n) fds)
unfolding send_fds
send_fds-calm socket n fds rs b c h =
    let (d, e, r) = send_loop-calm fds (suc n) 0 [] rs c h in
    (
      d,
      e,
      r ∙ ap pos (omega arith),
      elim (send_loop-SendEnds (suc n) fds (suc n) 0 [] rs d b (omega arith) refl e) [
        | all_sent ret done ↦ done
        | sent_before k x lt ret errno fatal done ↦ cc
      ],
    )
