-- ===== src/Exchange/Clock.antt =====
-- How a test ends that meets no wrong byte and no error of `read`: by the clock alone.
use hodgepodge.Prelude.{
  ℕ, zero, suc, ◌+◌, ◌-◌, ◌<◌, ◌≤◌, ◌≡◌, refl, inl, inr, true, Bool-cases, List, [], ◌∷◌, Option,
  none, some, ltb, ltb→lt, lt→ltb, leb, leb→le, if◌then◌else◌, ◌||◌, arith, replicate, ℤ, pos,
  int_of_size, int_of_size-small,
}
use hodgepodge.Exchange.{Verdict, passed, undefined, block, has_rate, is_later, report}

-- The output after each block, and the end.
abbrev pub timed : ℕ → List ℕ → ℕ → ℤ → Option Verdict
timed total [] id ms0 = if ltb id total then none else some passed
timed total (ms ∷ clock) id ms0 =
    if ltb id total
    then report total (id + block total id) ms ms0 (timed total clock (id + block total id))
    else some passed

pub report-same :
    (total id ms : ℕ) (ms0 : ℤ) (k k' : ℤ → Option Verdict)
    → ((m : ℤ) → k m ≡ k' m)
    → report total id ms ms0 k ≡ report total id ms ms0 k'
report-same total id ms ms0 k k' h = elim (Bool-cases (is_later ms ms0 || leb total id)) [
  | inr n ↦ rw n (h ms0)
  | inl e ↦ elim (Bool-cases (has_rate (int_of_size ms))) [
    | inl r ↦ rw (e, r) (h (int_of_size ms))
    | inr r ↦ rw (e, r) refl
  ]
]

-- The clock has a reading for each block, each below 2048 ms, and the one after the last block is not 0.
abbrev pub Timed : ℕ → List ℕ → ℕ → Type 0
Timed total [] id = total ≤ id
Timed total (ms ∷ clock) id =
    ltb id total ≡ true
    → (ms < 2048) × (total ≤ id + block total id → 0 < ms) × Timed total clock (id + block total id)

report-passed :
    (total id ms m : ℕ) (k : ℤ → Option Verdict)
    → ms < 2048
    → (total ≤ id → 0 < ms)
    → ((m' : ℕ) → k (pos m') ≡ some passed)
    → report total id ms (pos m) k ≡ some passed
report-passed total id ms m k small last h =
    elim (Bool-cases (is_later ms (pos m) || leb total id)) [
      | inr n ↦ rw n (h m)
      | inl e ↦
          let int : int_of_size ms ≡ pos ms = int_of_size-small ms (omega arith) in
          let positive : 0 < ms = elim (Bool-cases (leb total id)) [
            | inl l ↦ last (leb→le total id l)
            | inr n ↦ ground (arith, n)
          ] in
          let rate : has_rate (pos ms) ≡ true = ground arith in rw (e, int, rate) (h ms)
    ]

pub timed-passed :
    (total : ℕ) (clock : List ℕ) (id m : ℕ)
    → Timed total clock id
    → timed total clock id (pos m) ≡ some passed
timed-passed total [] id m h = elim (Bool-cases (ltb id total)) [
  | inl e ↦ absurd (omega (arith, ltb→lt id total e))
  | inr n ↦ rw n refl
]
timed-passed total (ms ∷ clock) id m h = elim (Bool-cases (ltb id total)) [
  | inr n ↦ rw n refl
  | inl e ↦
      let (small, last, rest) = h e in
      rw e (
        report-passed total (id + block total id) ms m (timed total clock (id + block total id))
          small last (λ m'. timed-passed total clock (id + block total id) m' rest))
]

-- Where no reading is above 0, the output after the last block divides by 0.
pub timed-undefined :
    (total n id : ℕ)
    → id < total
    → total - id ≤ n
    → timed total (replicate n 0) id (pos 0) ≡ some undefined
timed-undefined total zero id h k = absurd (omega arith)
timed-undefined total (suc n) id h k = elim (Bool-cases (leb total (id + block total id))) [
  | inl last ↦ rw (lt→ltb id total h, last) refl
  | inr more ↦
      rw (lt→ltb id total h, more)
        (timed-undefined total n (id + block total id) (ground arith) (ground arith))
]
