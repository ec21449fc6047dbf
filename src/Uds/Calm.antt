-- ===== src/Uds/Calm.antt =====
-- A blocking `read` of a Unix socket connection that meets no end of the file and no error.
use mathlib.Core.List.{append_assoc, append-nil}
use hodgepodge.Prelude.{
  ℕ, zero, suc, ◌-◌, ◌≤◌, ◌≡◌, refl, sym, ap, ◌∙◌, true, false, List, [], ◌∷◌, ◌++◌, some, arith,
  length, length-append, take, drop, All, pos, take-append, drop-append,
}
use hodgepodge.Socket.{ReadReply, got, read_failed}
use hodgepodge.Socket.Read.{payload, Obeys, IsCalm}
use hodgepodge.Uds.{ReadEnd, success, read_loop, read}

-- Such a read stores the first bytes offered and leaves the others.
abbrev pub Gets : ℕ → List ℕ → List ReadReply → ReadEnd → Type 0
Gets l stored rs d =
    (d.status ≡ success)
    × (d.stored ≡ stored ++ take l (payload rs))
    × (payload d.rest ≡ drop l (payload rs))
    × All IsCalm d.rest

read_loop-Gets :
    (l : ℕ) (stored : List ℕ) (rs : List ReadReply)
    → Obeys l rs
    → All IsCalm rs
    → l ≤ length (payload rs)
    → (d : ReadEnd) × (read_loop false l stored rs ≡ some d) × Gets l stored rs d
unfolding read_loop
read_loop-Gets zero stored rs o c h = (_, refl, (refl, sym (append-nil stored), refl, c))
read_loop-Gets (suc l) stored [] o c h = absurd (omega arith)
read_loop-Gets (suc l) stored (got [] ∷ rs) o c h = absurd c.0
read_loop-Gets (suc l) stored (got (b ∷ bs) ∷ rs) o c h =
    let (d, e, (s, t, p, q)) =
      read_loop-Gets (suc l - length (b ∷ bs)) (stored ++ b ∷ bs) rs o.1 c.1
        (omega (arith, length-append (b ∷ bs) (payload rs))) in
    (
      d,
      e,
      (
        s,
        t
            ∙ append_assoc stored (b ∷ bs) _
            ∙ ap (λ z. stored ++ z) (sym (take-append (suc l) (b ∷ bs) (payload rs) o.0)),
        p ∙ sym (drop-append (suc l) (b ∷ bs) (payload rs) o.0),
        q,
      ),
    )
read_loop-Gets (suc l) stored (read_failed x ∷ rs) o c h =
    let (d, e, g) = read_loop-Gets (suc l) stored rs o c.1 h in (d, rw (c.0, read_loop) e, g)

pub read-Gets :
    (fd n : ℕ) (rs : List ReadReply)
    → Obeys (suc n) rs
    → All IsCalm rs
    → suc n ≤ length (payload rs)
    → (d : ReadEnd) × (read false (pos (suc fd)) true (pos (suc n)) rs ≡ some d)
      × Gets (suc n) [] rs d
unfolding read
read-Gets fd n rs o c h = read_loop-Gets (suc n) [] rs o c h
