-- ===== src/Exchange/Client.antt =====
-- The characters that the test is made of, and the packets of the client.
use hodgepodge.Prelude.{
  ℕ, zero, suc, ◌+◌, ◌-◌, ◌%◌, ◌≤◌, ◌<◌, ◌≡◌, refl, sym, ap, ◌∙◌, inl, inr, Bool-cases,
  Option-cases, true, List, [], ◌∷◌, ◌++◌, some, if◌then◌else◌, ltb, length, arith,
}
use hodgepodge.Exchange.{char_of, fill, client_loop, numbers}

pub length-numbers : (id n : ℕ) → length (numbers id n) ≡ n
unfolding numbers
length-numbers id zero = refl
length-numbers id (suc n) = omega (arith, length-numbers (suc id) n)

-- The number of characters that a packet with this room holds.
abbrev held : ℕ → ℕ → ℕ → ℕ
held total room id = if ltb (total - id) room then total - id else room

pub empty_numbers : (id n : ℕ) → n ≡ 0 → [] ≡ numbers id n
unfolding numbers
empty_numbers id zero e = refl
empty_numbers id (suc n) e = absurd (omega arith)

pub same_numbers : (i j m n : ℕ) → i ≡ j → m ≡ n → numbers i m ≡ numbers j n
same_numbers i j m n p q = cc

pub fill-numbers : (total room id : ℕ) → fill total room id ≡ numbers id (held total room id)
unfolding fill numbers
fill-numbers total zero id = empty_numbers id (held total 0 id) (ground arith)
fill-numbers total (suc room) id = elim (Bool-cases (ltb id total)) [
  | inl more ↦ rw more (
      ap (◌∷◌ (char_of id)) (fill-numbers total room (suc id))
      ∙ cons_numbers id (held total room (suc id)) (held total (suc room) id)
          (ground (arith, more)))
  | inr done ↦ rw done (empty_numbers id (held total (suc room) id) (ground (arith, done)))
]
  where
    cons_numbers : (i m n : ℕ) → n ≡ suc m → char_of i ∷ numbers (suc i) m ≡ numbers i n
    cons_numbers i m n e = sym (ap (numbers i) e)

pub numbers-append : (id m n : ℕ) → numbers id m ++ numbers (id + m) n ≡ numbers id (m + n)
unfolding numbers
numbers-append id zero n = same_numbers (id + 0) id n (0 + n) (omega arith) (omega arith)
numbers-append id (suc m) n =
    ap (◌∷◌ (char_of id)) (
      ap (λ z. numbers (suc id) m ++ z) (same_numbers _ _ _ _ (omega arith) refl)
      ∙ numbers-append (suc id) m n)
    ∙ cons_numbers (omega arith)
  where
    cons_numbers : {k : ℕ} → k ≡ suc (m + n) → numbers id (suc (m + n)) ≡ numbers id k
    cons_numbers e = ap (numbers id) (sym e)

length-fill : (total room id : ℕ) → length (fill total room id) ≡ held total room id
length-fill total room id =
    ap length (fill-numbers total room id) ∙ length-numbers id (held total room id)

packet_size :
    (total r id : ℕ)
    → ltb id total ≡ true
    → (0 < length (fill total (r % 1024 + 1) id))
      × (length (fill total (r % 1024 + 1) id) ≤ total - id)
packet_size total r id more = ground (arith, length-fill total (r % 1024 + 1) id)

-- A packet and what comes after it.
join :
    (total room id : ℕ) (later : List ℕ)
    → length (fill total room id) ≤ total - id
    → later
      ≡ numbers (id + length (fill total room id)) (total - (id + length (fill total room id)))
    → fill total room id ++ later ≡ numbers id (total - id)
join total room id later fits e =
    let n = length (fill total room id) in
    let size = length-fill total room id in
    ap (λ z. z ++ later) (fill-numbers total room id ∙ ap (numbers id) (sym size))
    ∙ ap (λ z. numbers id n ++ z) e
    ∙ numbers-append id n (total - (id + n))
    ∙ same_numbers id id _ _ refl (omega arith)

-- Where the client's loop ends, it has written the characters of the numbers from `id` to `total`.
pub client_loop-numbers :
    (total : ℕ) (rs : List ℕ) (id : ℕ) (bytes : List ℕ)
    → client_loop total rs id ≡ some bytes
    → bytes ≡ numbers id (total - id)
unfolding client_loop
client_loop-numbers total [] id bytes e = elim (Bool-cases (ltb id total)) [
  | inl more ↦ absurd (cc (rw (more, client_loop) at e))
  | inr done ↦
      ground (arith, rw (done, client_loop) at e, empty_numbers id (total - id) (ground arith))
]
client_loop-numbers total (r ∷ rs) id bytes e = elim (Bool-cases (ltb id total)) [
  | inr done ↦
      ground (arith, rw (done, client_loop) at e, empty_numbers id (total - id) (ground arith))
  | inl more ↦ elim (Option-cases (client_loop total rs (id + length packet))) [
    | inl short ↦ absurd (cc (rw (more, short, client_loop) at e))
    | inr (later, runs) ↦
        let sent = rw (more, runs, client_loop) at e in
        ground (arith, sent)
        ∙ join total (r % 1024 + 1) id later (packet_size total r id more).1
            (client_loop-numbers total rs (id + length packet) later runs)
  ]
]
  where
    packet : List ℕ
    packet = fill total (r % 1024 + 1) id

-- The client's loop ends if it is given as many numbers as there are characters left.
pub client_loop-ends :
    (total : ℕ) (rs : List ℕ) (id : ℕ)
    → total ≤ id + length rs
    → (bytes : List ℕ) × (client_loop total rs id ≡ some bytes)
unfolding client_loop
client_loop-ends total [] id h = ([], ground arith)
client_loop-ends total (r ∷ rs) id h = elim (Bool-cases (ltb id total)) [
  | inr done ↦ ([], rw (done, client_loop))
  | inl more ↦
      let (later, runs) =
        client_loop-ends total rs (id + length packet)
          (omega (arith, (packet_size total r id more).0)) in
      (packet ++ later, rw (more, runs, client_loop))
]
  where
    packet : List ℕ
    packet = fill total (r % 1024 + 1) id
