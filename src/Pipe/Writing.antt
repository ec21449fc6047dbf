-- ===== src/Pipe/Writing.antt =====
-- `write` of a named pipe: what it sends and what it returns.
use hodgepodge.Prelude.{
  ℕ, zero, suc, ◌-◌, ◌≤◌, ◌<◌, ◌≡◌, refl, ap, List, [], ◌∷◌, ◌++◌, some, arith, length, take, drop,
  pos, length-drop, take-append-drop, ◌∙◌,
}
use mathlib.Core.List.{append_assoc, append-nil}
use hodgepodge.Pipe.{
  WriteReply, wrote_now, wrote_later, refused_now, refused_later, WriteEnd, write_loop, write,
}

-- What `WriteFile` documents: it takes no more than it was given, and an error has a number that is
-- not 0.
abbrev pub Obeys : ℕ → List WriteReply → Type 0
Obeys zero rs = Unit
Obeys (suc l) [] = Unit
Obeys (suc l) (wrote_now k ∷ rs) = (k ≤ suc l) × Obeys (suc l - k) rs
Obeys (suc l) (wrote_later k ∷ rs) = (k ≤ suc l) × Obeys (suc l - k) rs
Obeys (suc l) (refused_now e ∷ rs) = 0 < e
Obeys (suc l) (refused_later e ∷ rs) = 0 < e

-- How a `write` of a buffer ends.
pub data Ends (bytes : List ℕ) (d : WriteEnd) : Type 0 where
  whole : d.error ≡ 0 → d.sent ≡ bytes → Ends bytes d
  part : (left : List ℕ) → 0 < d.error → 0 < length left → d.sent ++ left ≡ bytes → Ends bytes d

moved :
    (bytes ptr sent : List ℕ) (k : ℕ)
    → sent ++ ptr ≡ bytes
    → (sent ++ take k ptr) ++ drop k ptr ≡ bytes
moved bytes ptr sent k h =
    append_assoc sent (take k ptr) (drop k ptr) ∙ ap (λ z. sent ++ z) (take-append-drop k ptr) ∙ h

write_loop-Ends :
    (bytes : List ℕ) (l : ℕ) (ptr sent : List ℕ) (rs : List WriteReply) (d : WriteEnd)
    → sent ++ ptr ≡ bytes
    → length ptr ≡ l
    → Obeys l rs
    → write_loop l ptr sent rs ≡ some d
    → Ends bytes d
unfolding write_loop
write_loop-Ends bytes zero [] sent rs d h e o r =
    whole (ground arith) (ground (arith, append-nil sent))
write_loop-Ends bytes zero (b ∷ ptr) sent rs d h e o r = absurd (omega arith)
write_loop-Ends bytes (suc l) ptr sent [] d h e o r = cc
write_loop-Ends bytes (suc l) ptr sent (wrote_now k ∷ rs) d h e o r =
    write_loop-Ends bytes (suc l - k) (drop k ptr) (sent ++ take k ptr) rs d
      (moved bytes ptr sent k h) (omega (arith, length-drop k ptr)) o.1 r
write_loop-Ends bytes (suc l) ptr sent (wrote_later k ∷ rs) d h e o r =
    write_loop-Ends bytes (suc l - k) (drop k ptr) (sent ++ take k ptr) rs d
      (moved bytes ptr sent k h) (omega (arith, length-drop k ptr)) o.1 r
write_loop-Ends bytes (suc l) ptr sent (refused_now x ∷ rs) d h e o r =
    part ptr (ground arith) (omega arith) (ground arith)
write_loop-Ends bytes (suc l) ptr sent (refused_later x ∷ rs) d h e o r =
    part ptr (ground arith) (omega arith) (ground arith)

-- A `write` of a whole buffer, on a system that takes no more than it was given: where it returns, it
-- returns 0 and has sent the buffer, or it returns an error and has sent a first part of it only.
pub write-Ends :
    (bytes : List ℕ) (rs : List WriteReply) (d : WriteEnd)
    → Obeys (length bytes) rs
    → write bytes (pos (length bytes)) rs ≡ some d
    → Ends bytes d
unfolding write
write-Ends bytes rs d o r = write_loop-Ends bytes (length bytes) bytes [] rs d refl refl o r
