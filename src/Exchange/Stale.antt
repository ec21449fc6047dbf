-- ===== src/Exchange/Stale.antt =====
-- The server's side of the test at the end of the file.
use mathlib.Core.List.{append-nil}
use hodgepodge.Prelude.{
  ℕ, zero, suc, ◌+◌, ◌-◌, ◌%◌, ◌≤◌, ◌<◌, ◌≡◌, refl, sym, ap, ◌∙◌, inl, inr, Bool-cases, true, false,
  List, [], ◌∷◌, some, ltb, ltb→lt, lt→ltb, length, take, arith, pos, replicate, ℤ,
}
use hodgepodge.Socket.{ReadReply, got}
use hodgepodge.Uds
use hodgepodge.Uds.{ReadEnd, success, invalid, failed, overwrite}
use hodgepodge.Exchange.{report, passed, compare_block, block, server_loop, numbers}
use hodgepodge.Exchange.Clock.{timed, Timed, report-same, timed-passed}
use hodgepodge.Exchange.Client.{length-numbers}
use hodgepodge.Exchange.Server.{compare_block-numbers, block_size, take-numbers}

numbers_period : (i j n : ℕ) → i % 256 ≡ j % 256 → numbers i n ≡ numbers j n
unfolding numbers
numbers_period i j zero e = refl
numbers_period i j (suc n) e =
    ap (λ c. c ∷ numbers (suc i) n) e
    ∙ ap (◌∷◌ (j % 256)) (numbers_period (suc i) (suc j) n (omega arith))

read_end_of_file :
    (fd n : ℕ) (rs : List ReadReply)
    → 0 < n
    → Uds.read false (pos (suc fd)) true (pos n) (got [] ∷ rs)
      ≡ some (record { status = success; stored = []; rest = rs })
unfolding Uds.read Uds.read_loop
read_end_of_file fd zero rs p = absurd (omega arith)
read_end_of_file fd (suc n) rs p = refl

take-numbers_alone : (id n m : ℕ) → n ≤ m → take n (numbers id m) ≡ numbers id n
take-numbers_alone id n m h =
    ap (take n) (sym (append-nil (numbers id m))) ∙ take-numbers id n m [] h

finished :
    (fd : ℕ) (clock : List ℕ) (total id : ℕ) (ms0 : ℤ) (buffer : List ℕ) (rs : List ReadReply)
    → total ≤ id
    → server_loop (pos (suc fd)) clock total id ms0 buffer rs ≡ timed total clock id ms0
unfolding server_loop
finished fd [] total id ms0 buffer rs h = refl
finished fd (ms ∷ clock) total id ms0 buffer rs h = elim (Bool-cases (ltb id total)) [
  | inl left ↦ absurd (omega (arith, ltb→lt id total left))
  | inr done ↦ rw (done, server_loop) refl
]

-- The server at the end of the file, with the first block still in its buffer.
stale-timed :
    (fd : ℕ) (clock : List ℕ) (total id n : ℕ) (ms0 : ℤ)
    → id % 256 ≡ 0
    → total - id ≤ n
    → server_loop (pos (suc fd)) clock total id ms0 (numbers 0 1024) (replicate n (got []))
      ≡ timed total clock id ms0
unfolding server_loop overwrite
stale-timed fd [] total id n ms0 p h = refl
stale-timed fd (ms ∷ clock) total id zero ms0 p h = elim (Bool-cases (ltb id total)) [
  | inr done ↦ rw (done, server_loop) refl
  | inl left ↦ absurd (omega (arith, ltb→lt id total left))
]
stale-timed fd (ms ∷ clock) total id (suc n) ms0 p h = elim (Bool-cases (ltb id total)) [
  | inr done ↦ rw (done, server_loop) refl
  | inl left ↦
      let sizes = block_size total id left in
      let same =
        ap (λ z. compare_block total z id)
          (take-numbers_alone 0 (block total id) 1024 sizes.2
            ∙ numbers_period 0 id (block total id) (omega arith))
        ∙ compare_block-numbers total (block total id) id (omega (arith, sizes.0, sizes.1)) in
      rw
        (
          left,
          read_end_of_file fd (block total id) (replicate n (got [])) sizes.0,
          same,
          server_loop,
        )
        (report-same total (id + block total id) ms ms0
          (λ m.
            server_loop (pos (suc fd)) clock total (id + block total id) m (numbers 0 1024)
              (replicate n (got [])))
          (timed total clock (id + block total id))
          (λ m. elim (Bool-cases (ltb (total - id) 1024)) [
            | inl last ↦
                finished fd clock total (id + block total id) m (numbers 0 1024)
                  (replicate n (got [])) (ground (arith, last))
            | inr full ↦
                stale-timed fd clock total (id + block total id) n m (ground (arith, full))
                  (omega (arith, sizes.0))
          ]))
]

overwrite_all : (xs ys : List ℕ) → length xs ≡ length ys → overwrite xs ys ≡ ys
unfolding overwrite
overwrite_all [] [] h = refl
overwrite_all (x ∷ xs) [] h = absurd (omega arith)
overwrite_all [] (y ∷ ys) h = absurd (omega arith)
overwrite_all (x ∷ xs) (y ∷ ys) h = ap (◌∷◌ y) (overwrite_all xs ys (omega arith))

read_at_once :
    (fd n : ℕ) (bs : List ℕ) (rs : List ReadReply)
    → 0 < n
    → length bs ≡ n
    → Uds.read false (pos (suc fd)) true (pos n) (got bs ∷ rs)
      ≡ some (record { status = success; stored = bs; rest = rs })
unfolding Uds.read Uds.read_loop
read_at_once fd zero bs rs p h = absurd (omega arith)
read_at_once fd (suc n) [] rs p h = absurd (omega arith)
read_at_once fd (suc n) (b ∷ bs) rs p h =
    ap (λ k. Uds.read_loop false k (b ∷ bs) rs) {y = 0} (omega arith)

-- The client sends the first block of a longer test and ends, and the server reads the end of the file from
-- there on: with a buffer of 1024 bytes, and a clock that has a reading below 2048 ms for each block, the one
-- after the last block not 0, the server passes the test all the same.
pub server_loop-stale :
    (fd : ℕ) (clock : List ℕ) (total n : ℕ) (buffer : List ℕ)
    → length buffer ≡ 1024
    → 1024 ≤ total
    → total ≤ n
    → Timed total clock 0
    → server_loop
        (pos (suc fd))
        clock
        total
        0
        (pos 0)
        buffer
        (got (numbers 0 1024) ∷ replicate n (got []))
      ≡ some passed
unfolding server_loop
server_loop-stale fd [] total n buffer b t h c = absurd (omega arith)
server_loop-stale fd (ms ∷ clock) total n buffer b t h c =
    let received =
      read_at_once fd (block total 0) (numbers 0 1024) (replicate n (got [])) (omega (arith, whole))
        (length-numbers 0 1024 ∙ sym whole) in
    let filled = overwrite_all buffer (numbers 0 1024) (b ∙ sym (length-numbers 0 1024)) in
    let same =
      ap (λ z. compare_block total z 0)
        (ap (λ k. take k (numbers 0 1024)) whole ∙ take-numbers_alone 0 1024 1024 (omega arith))
      ∙ compare_block-numbers total 1024 0 (omega arith) in
    let start = lt→ltb 0 total (omega arith) in
    rw (start, received, filled, same, server_loop)
      (report-same total 1024 ms (pos 0)
          (λ m.
            server_loop (pos (suc fd)) clock total 1024 m (overwrite buffer (numbers 0 1024))
              (replicate n (got [])))
          (timed total clock 1024)
          (λ m.
            ap (λ z. server_loop (pos (suc fd)) clock total 1024 m z (replicate n (got []))) filled
            ∙ stale-timed fd clock total 1024 n m refl (omega arith))
        ∙ sym (rw start (ap (λ i. report total i ms (pos 0) (timed total clock i)) first))
        ∙ timed-passed total (ms ∷ clock) 0 0 c)
  where
    first : 0 + block total 0 ≡ 1024
    first = ground arith

    whole : block total 0 ≡ 1024
    whole = ground arith
