-- ===== src/Channel/Reads.antt =====
-- What a call of `read` on a named pipe does to the bytes that the user has and those to come.
use mathlib.Core.List.{append_assoc, append-nil}
use hodgepodge.Prelude.{
  ℕ, zero, suc, ◌≡◌, refl, ap, ◌∙◌, ◌⊎◌, inl, inr, Bool, true, List, [], ◌∷◌, ◌++◌, ◌-◌, Option,
  none, some, arith, length, drop, Option-cases, ==_iff, ℤ,
}
use hodgepodge.Pipe.{
  ReadReply, ReadEnd, cached, read, poll, read_loop, poll_loop, stored_by, error_of,
}
use hodgepodge.Channel.{
  Channel, Step, next, blocked, assert_fails, Use, blocking, polling, strip, take_end, use_one,
  use_all, ◌>>=◌,
}

-- A read has stored what it started with and then more, and empties the cache.
abbrev pub Extends : List ℕ → ReadEnd → Type 0
Extends start d = (taken : List ℕ) × (d.stored ≡ start ++ taken) × (d.cache_empty ≡ true)

longer : (start more : List ℕ) (d : ReadEnd) → Extends (start ++ more) d → Extends start d
longer start more d (taken, e, c) = (more ++ taken, e ∙ append_assoc start more taken, c)

zero_or_suc : (n : ℕ) → (n ≡ 0) ⊎ ((m : ℕ) × (n ≡ suc m))
zero_or_suc zero = inl refl
zero_or_suc (suc n) = inr (n, refl)

read_loop-Extends :
    (l : ℕ) (start : List ℕ) (rs : List ReadReply) (d : ReadEnd)
    → read_loop l start rs ≡ some d
    → Extends start d
unfolding read_loop
read_loop-Extends zero start rs d r = ([], ground (arith, append-nil start), ground arith)
read_loop-Extends (suc l) start [] d r = cc
read_loop-Extends (suc l) start (a ∷ rs) d r = elim (zero_or_suc (error_of a)) [
  | inl fine ↦ longer start (stored_by a) d (
      read_loop-Extends (suc l - length (stored_by a)) (start ++ stored_by a) rs d
        (rw (fine, read_loop) at r))
  | inr (e, fails) ↦
      let stop = rw (fails, read_loop) at r in
      (stored_by a, ground (arith, stop), ground (arith, stop))
]

poll_loop-Extends :
    (l : ℕ) (start : List ℕ) (rs : List ReadReply) (d : ReadEnd)
    → poll_loop l start rs ≡ some d
    → Extends start d
unfolding poll_loop
poll_loop-Extends zero start rs d r = ([], ground (arith, append-nil start), ground arith)
poll_loop-Extends (suc l) start [] d r = cc
poll_loop-Extends (suc l) start (a ∷ rs) d r = elim (zero_or_suc (error_of a)) [
  | inl fine ↦ elim (zero_or_suc (length (start ++ stored_by a))) [
    | inl nothing ↦ poll_loop-Extends (suc l) start rs d (rw (fine, nothing, poll_loop) at r)
    | inr (n, some_bytes) ↦
        let stop = rw (fine, some_bytes, poll_loop) at r in
        (stored_by a, ground (arith, stop), ground (arith, stop))
  ]
  | inr (e, fails) ↦
      let stop = rw (fails, poll_loop) at r in
      (stored_by a, ground (arith, stop), ground (arith, stop))
]

pub read-Extends :
    (empty : Bool) (byte0 : ℕ) (len : ℤ) (rs : List ReadReply) (d : ReadEnd)
    → read empty byte0 len rs ≡ some d
    → Extends (cached empty byte0) d
unfolding read
read-Extends empty byte0 len rs d r = read_loop-Extends _ (cached empty byte0) rs d r

pub poll-Extends :
    (empty : Bool) (byte0 : ℕ) (len : ℤ) (peek : Option ℕ) (rs : List ReadReply) (d : ReadEnd)
    → poll empty byte0 len peek rs ≡ some d
    → Extends (cached empty byte0) d
unfolding poll
poll-Extends empty byte0 len none rs d r = poll_loop-Extends _ (cached empty byte0) rs d r
poll-Extends empty byte0 len (some zero) rs d r =
    ([], ground (arith, append-nil (cached empty byte0)), ground arith)
poll-Extends empty byte0 len (some (suc n)) rs d r = poll_loop-Extends _ (cached empty byte0) rs d r

strip-eq : (xs ys zs : List ℕ) → strip xs ys ≡ some zs → ys ≡ xs ++ zs
unfolding strip
strip-eq [] ys zs e = ground arith
strip-eq (x ∷ xs) [] zs e = cc
strip-eq (x ∷ xs) (y ∷ ys) zs e = ground (arith, ==_iff x y, strip-eq xs ys zs)

drop-length : (xs ys : List ℕ) → drop (length xs) (xs ++ ys) ≡ ys
drop-length [] ys = refl
drop-length (x ∷ xs) ys = drop-length xs ys

-- The bytes that the user can still get.
abbrev pub held : Channel → List ℕ
held c = cached c.cache_empty c.cache_byte0 ++ c.incoming

-- What reads leave as it was.
pub record Kept (c c' : Channel) : Type 0 where
  pub same_outstanding : c'.outstanding ≡ c.outstanding
  pub same_posted : c'.posted ≡ c.posted
  pub same_arrived : c'.arrived ≡ c.arrived
  pub same_closed : c'.closed ≡ c.closed
  pub same_bytes : c'.delivered ++ held c' ≡ c.delivered ++ held c

-- A step is not made, or leads to a channel with the property, and no assertion fails.
abbrev pub Fine : (Channel → Type 0) → Step → Type 0
Fine P (next c) = P c
Fine P blocked = Unit
Fine P assert_fails = ⊥

abbrev pub Read : Channel → Channel → Type 0
Read c c' = Kept c c' × (c'.cache_empty ≡ true)

regroup :
    (a start taken left incoming stored after : List ℕ)
    → stored ≡ start ++ taken
    → incoming ≡ taken ++ left
    → after ≡ left
    → (a ++ stored) ++ after ≡ a ++ (start ++ incoming)
regroup a start taken left incoming stored after p q h =
    rw (p, q, h)
      (append_assoc a (start ++ taken) left ∙ ap (λ z. a ++ z) (append_assoc start taken left))

take_end-Read :
    (c : Channel) (d : ReadEnd)
    → Extends (cached c.cache_empty c.cache_byte0) d
    → Fine (Read c) (take_end (some d) c)
unfolding take_end
take_end-Read c d (taken, e, empty) = elim (Option-cases (strip taken c.incoming)) [
  | inl odd ↦ rw (at_strip none odd, take_end) tt
  | inr (left, ok) ↦
      rw (at_strip (some left) ok, take_end)
        (
          record {
            same_outstanding = refl;
            same_posted = refl;
            same_arrived = refl;
            same_closed = refl;
            same_bytes =
                regroup c.delivered (cached c.cache_empty c.cache_byte0) taken left c.incoming
                  d.stored (cached d.cache_empty c.cache_byte0 ++ left) e
                  (strip-eq taken c.incoming left ok)
                  (ap (λ b. cached b c.cache_byte0 ++ left) empty);
          },
          empty,
        )
]
  where
    at_strip :
        (o : Option (List ℕ))
        → strip taken c.incoming ≡ o
        → strip (drop (length (cached c.cache_empty c.cache_byte0)) d.stored) c.incoming ≡ o
    at_strip o h =
        ap (λ z. strip z c.incoming)
          (ap (drop (length (cached c.cache_empty c.cache_byte0))) e
            ∙ drop-length (cached c.cache_empty c.cache_byte0) taken)
        ∙ h

take-Read :
    (c : Channel) (o : Option ReadEnd)
    → ((d : ReadEnd) → o ≡ some d → Extends (cached c.cache_empty c.cache_byte0) d)
    → Fine (Read c) (take_end o c)
take-Read c none h = unfold take_end in tt
take-Read c (some d) h = take_end-Read c d (h d refl)

use_one-Read : (u : Use) (c : Channel) → Fine (Read c) (use_one u c)
unfolding use_one
use_one-Read (blocking len rs) c = take-Read c _ (read-Extends c.cache_empty c.cache_byte0 len rs)
use_one-Read (polling len peek rs) c =
    take-Read c _ (poll-Extends c.cache_empty c.cache_byte0 len peek rs)

Kept-refl : (c : Channel) → Kept c c
Kept-refl c = record {
  same_outstanding = refl;
  same_posted = refl;
  same_arrived = refl;
  same_closed = refl;
  same_bytes = refl;
}

Kept-trans : (a b c : Channel) → Kept a b → Kept b c → Kept a c
Kept-trans a b c p q = record {
  same_outstanding = q.same_outstanding ∙ p.same_outstanding;
  same_posted = q.same_posted ∙ p.same_posted;
  same_arrived = q.same_arrived ∙ p.same_arrived;
  same_closed = q.same_closed ∙ p.same_closed;
  same_bytes = q.same_bytes ∙ p.same_bytes;
}

pub Fine-bind :
    (P Q : Channel → Type 0) (s : Step) (f : Channel → Step)
    → Fine P s
    → ((c : Channel) → P c → Fine Q (f c))
    → Fine Q (s >>= f)
Fine-bind P Q (next c) f h k = k c h
Fine-bind P Q blocked f h k = tt
Fine-bind P Q assert_fails f h k = absurd h

use_all-Kept : (us : List Use) (a c : Channel) → Read a c → Fine (Read a) (use_all us c)
unfolding use_all
use_all-Kept [] a c r = r
use_all-Kept (u ∷ us) a c r =
    Fine-bind (Read c) (Read a) (use_one u c) (use_all us) (use_one-Read u c)
      (λ b q. use_all-Kept us a b (Kept-trans a c b r.0 q.0, q.1))

-- At least one read empties the cache; reads lose no byte and move none.
pub use_all-Read : (u : Use) (us : List Use) (c : Channel) → Fine (Read c) (use_all (u ∷ us) c)
unfolding use_all
use_all-Read u us c =
    Fine-bind (Read c) (Read c) (use_one u c) (use_all us) (use_one-Read u c)
      (λ b q. use_all-Kept us c b q)
