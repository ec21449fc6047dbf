-- ===== src/Descriptors/Receiving.antt =====
-- `receiveFdsThroughSocket`: what it stores and returns, and that it gets what was sent.
use mathlib.Core.List.{append_assoc, append-nil}
use hodgepodge.Prelude.{
  ℕ, zero, suc, ◌+◌, ◌≤◌, ◌<◌, ◌≡◌, refl, sym, ap, ap₂, subst, ◌∙◌, inl, inr, true, List, [], ◌∷◌,
  ◌++◌, map, none, some, arith, length, length-append, take, ℤ, pos, negsuc, All, Bool-cases,
}
use hodgepodge.Socket.{is_transient, failure}
use hodgepodge.Descriptors.{
  SendReply, ReceiveReply, closed, passed, receive_failed, Done, send_fds, receive_loop,
  receive_fds, done_with,
}
use hodgepodge.Descriptors.Sending.{stops, all_sent, sent_before, send_fds-SendEnds}

-- The descriptors that the answers of `recvmsg` hold.
abbrev pub descriptors : List ReceiveReply → List ℤ
descriptors [] = []
descriptors (closed ∷ rs) = descriptors rs
descriptors (passed fd ∷ rs) = fd ∷ descriptors rs
descriptors (receive_failed e ∷ rs) = descriptors rs

-- How a call that receives `n` descriptors ends.
pub data ReceiveEnds (n : ℕ) (from : List ℤ) (d : Done) : Type 0 where
  all_received : d.ret ≡ pos n → length d.done ≡ n → d.done ≡ take n from → ReceiveEnds n from d
  file_ended :
      d.ret ≡ pos 0 → length d.done < n → d.done ≡ take (length d.done) from → ReceiveEnds n from d
  broke :
      d.ret ≡ failure
      → length d.done < n
      → d.done ≡ take (length d.done) from
      → ReceiveEnds n from d

take_all : (xs ys : List ℤ) → take (length xs) (xs ++ ys) ≡ xs
take_all [] ys = refl
take_all (x ∷ xs) ys = ap (◌∷◌ x) (take_all xs ys)

-- What is stored is a first part of what was offered.
stored_prefix :
    (done stored from : List ℤ) → done ≡ stored → done ≡ take (length done) (stored ++ from)
stored_prefix done stored from e =
    e ∙ sym (take_all stored from) ∙ ap (λ ds. take (length ds) (stored ++ from)) (sym e)

receive_loop-ReceiveEnds :
    (n left cnt : ℕ) (stored : List ℤ) (rs : List ReceiveReply) (d : Done)
    → cnt + left ≡ n
    → length stored ≡ cnt
    → receive_loop left cnt stored rs ≡ some d
    → ReceiveEnds n (stored ++ descriptors rs) d
unfolding receive_loop
receive_loop-ReceiveEnds n zero cnt stored rs d e s r =
    let (ret, errno, done) = stops _ _ _ _ r in
    let count : length d.done ≡ n = ap length done ∙ s ∙ omega arith in
    all_received (ground arith) count (
      stored_prefix d.done stored (descriptors rs) done
      ∙ ap (λ k. take k (stored ++ descriptors rs)) count)
receive_loop-ReceiveEnds n (suc l) cnt stored [] d e s r = cc
receive_loop-ReceiveEnds n (suc l) cnt stored (closed ∷ rs) d e s r =
    let (ret, errno, done) = stops _ _ _ _ r in
    file_ended ret (omega (arith, ap length done))
      (stored_prefix d.done stored (descriptors rs) done)
receive_loop-ReceiveEnds n (suc l) cnt stored (passed (negsuc m) ∷ rs) d e s r =
    let (ret, errno, done) = stops _ _ _ _ r in
    broke ret (omega (arith, ap length done))
      (stored_prefix d.done stored (negsuc m ∷ descriptors rs) done)
receive_loop-ReceiveEnds n (suc l) cnt stored (passed (pos fd) ∷ rs) d e s r =
    subst (λ z. ReceiveEnds n z d) (append_assoc stored (pos fd ∷ []) (descriptors rs))
      (receive_loop-ReceiveEnds n l (suc cnt) (stored ++ pos fd ∷ []) rs d (omega arith)
        (omega (arith, length-append stored (pos fd ∷ []))) r)
receive_loop-ReceiveEnds n (suc l) cnt stored (receive_failed x ∷ rs) d e s r =
    elim (Bool-cases (is_transient x)) [
      | inl again ↦
          receive_loop-ReceiveEnds n (suc l) cnt stored rs d e s (rw (again, receive_loop) at r)
      | inr fatal ↦
          let (ret, errno, done) = stops _ _ _ _ (rw (fatal, receive_loop) at r) in
          broke ret (omega (arith, ap length done))
            (stored_prefix d.done stored (descriptors rs) done)
    ]

-- A call of `receiveFdsThroughSocket` with a socket, an array and n above 0: where it returns, it has
-- stored the first n descriptors that were offered and returns n, or it has stored fewer of
-- them and returns 0 or -1.
receive_fds-ReceiveEnds :
    (socket n : ℕ) (rs : List ReceiveReply) (d : Done)
    → receive_fds (pos (suc socket)) (pos (suc n)) true rs ≡ some d
    → ReceiveEnds (suc n) (descriptors rs) d
unfolding receive_fds
receive_fds-ReceiveEnds socket n rs d r =
    receive_loop-ReceiveEnds (suc n) (suc n) 0 [] rs d (omega arith) refl r

abbrev pub IsDescriptor : ℤ → Type 0
IsDescriptor (pos n) = Unit
IsDescriptor (negsuc n) = ⊥

same_done :
    (j k : ℕ) (ds es : List ℤ)
    → j ≡ k
    → ds ≡ es
    → done_with (pos j) none ds ≡ done_with (pos k) none es
same_done j k ds es p q = ground arith

receive_loop_whole :
    (ds : List ℤ) (left cnt : ℕ) (stored : List ℤ)
    → left ≡ length ds
    → All IsDescriptor ds
    → receive_loop left cnt stored (map passed ds)
      ≡ done_with (pos (cnt + left)) none (stored ++ ds)
unfolding receive_loop
receive_loop_whole [] zero cnt stored e h =
    same_done _ _ _ _ (omega arith) (sym (append-nil stored))
receive_loop_whole [] (suc l) cnt stored e h = absurd (omega arith)
receive_loop_whole (x ∷ ds) zero cnt stored e h = absurd (omega arith)
receive_loop_whole (negsuc m ∷ ds) (suc l) cnt stored e h = absurd h.0
receive_loop_whole (pos fd ∷ ds) (suc l) cnt stored e h =
    receive_loop_whole ds l (suc cnt) (stored ++ pos fd ∷ []) (omega arith) h.1
    ∙ same_done _ _ _ _ (omega arith) (append_assoc stored (pos fd ∷ []) ds)

length-take : (n : ℕ) (ds : List ℤ) → n ≤ length ds → length (take n ds) ≡ n
length-take zero ds h = refl
length-take (suc n) [] h = absurd (omega arith)
length-take (suc n) (x ∷ ds) h = ap suc (length-take n ds (omega arith))

receive_sent :
    (socket n : ℕ) (ds : List ℤ)
    → length ds ≡ suc n
    → All IsDescriptor ds
    → receive_fds (pos (suc socket)) (pos (suc n)) true (map passed ds)
      ≡ done_with (pos (suc n)) none ds
unfolding receive_fds
receive_sent socket n ds e h =
    receive_loop_whole ds (suc n) 0 [] (sym e) h ∙ same_done _ _ _ _ (omega arith) refl

-- What `unix(7)` says of messages with descriptors: for each descriptor sent the receiver gets a new
-- number, of its own, and the number stands for the open file that the sent one stands for.
abbrev pub Delivers : {F : Type 0} → (ℤ → F) → (ℤ → F) → List ℤ → List ℤ → Type 0
Delivers sender_file receiver_file [] [] = Unit
Delivers sender_file receiver_file [] (new ∷ news) = ⊥
Delivers sender_file receiver_file (fd ∷ fds) [] = ⊥
Delivers sender_file receiver_file (fd ∷ fds) (new ∷ news) =
    IsDescriptor new
    × (receiver_file new ≡ sender_file fd)
    × Delivers sender_file receiver_file fds news

module _ {F : Type 0} (sender_file receiver_file : ℤ → F) where
  Delivers-length :
      (fds news : List ℤ) → Delivers sender_file receiver_file fds news → length news ≡ length fds
  Delivers-length [] [] h = refl
  Delivers-length [] (new ∷ news) h = absurd h
  Delivers-length (fd ∷ fds) [] h = absurd h
  Delivers-length (fd ∷ fds) (new ∷ news) h = ap suc (Delivers-length fds news h.2)

  Delivers-IsDescriptor :
      (fds news : List ℤ) → Delivers sender_file receiver_file fds news → All IsDescriptor news
  Delivers-IsDescriptor [] [] h = tt
  Delivers-IsDescriptor [] (new ∷ news) h = absurd h
  Delivers-IsDescriptor (fd ∷ fds) [] h = absurd h
  Delivers-IsDescriptor (fd ∷ fds) (new ∷ news) h = (h.0, Delivers-IsDescriptor fds news h.2)

  Delivers-map :
      (fds news : List ℤ)
      → Delivers sender_file receiver_file fds news
      → map receiver_file news ≡ map sender_file fds
  Delivers-map [] [] h = refl
  Delivers-map [] (new ∷ news) h = absurd h
  Delivers-map (fd ∷ fds) [] h = absurd h
  Delivers-map (fd ∷ fds) (new ∷ news) h = ap₂ ◌∷◌ h.1 (Delivers-map fds news h.2)

  -- Where a call of `sendFdsThroughSocket` on at least n elements, n above 0, returns n, and the system delivers
  -- what it sent with new numbers, a call of `receiveFdsThroughSocket` that gets those messages and asks
  -- for n returns n and stores n numbers, which in the receiver stand for the open files of the first n
  -- elements, in order.
  pub receive_fds-send_fds :
      (sender receiver n : ℕ) (fds news : List ℤ) (rs : List SendReply) (d : Done)
      → suc n ≤ length fds
      → send_fds (pos (suc sender)) (pos (suc n)) (some fds) rs ≡ some d
      → d.ret ≡ pos (suc n)
      → Delivers sender_file receiver_file d.done news
      → (stored : List ℤ) × (receive_fds (pos (suc receiver)) (pos (suc n)) true (map passed news)
          ≡ some (record { ret = pos (suc n); errno = none; done = stored }))
        × (length stored ≡ suc n)
        × (map receiver_file stored ≡ map sender_file (take (suc n) fds))
  receive_fds-send_fds sender receiver n fds news rs d b r ok h =
      elim (send_fds-SendEnds sender n fds rs d b r) [
        | all_sent ret done ↦
            let size : length news ≡ suc n =
              Delivers-length d.done news h ∙ ap length done ∙ length-take (suc n) fds b in
            (
              news,
              receive_sent receiver n news size (Delivers-IsDescriptor d.done news h),
              size,
              Delivers-map d.done news h ∙ ap (map sender_file) done,
            )
        | sent_before k e lt ret errno fatal done ↦ cc
      ]
