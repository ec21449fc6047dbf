-- ===== src/Uds/Strings.antt =====
-- `string_copy`: the array holds the string, or what fits of it.
use hodgepodge.Prelude.{
  ℕ, zero, suc, ◌-◌, ◌≤◌, ◌<◌, ◌≡◌, refl, sym, ap, ◌∙◌, List, [], ◌∷◌, some, if◌then◌else◌, length,
  take, drop, set, arith, All, ◌==◌, length-drop, length-set,
}
use hodgepodge.Uds.{overwrite, string_copy, min_size}

-- What `strlen` and its kin read: the characters before the first zero.
unfoldable pub c_string : List ℕ → List ℕ
c_string [] = []
c_string (c ∷ cs) = if c == 0 then [] else c ∷ c_string cs

-- No character is a zero.
abbrev pub IsText : List ℕ → Type 0
IsText = All (λ c. 0 < c)

IsText-drop : (n : ℕ) (cs : List ℕ) → IsText cs → IsText (drop n cs)
IsText-drop zero cs h = h
IsText-drop (suc n) [] h = tt
IsText-drop (suc n) (c ∷ cs) h = IsText-drop n cs h.1

overwritten :
    (dest cs : List ℕ) (n : ℕ)
    → IsText cs
    → n ≤ length cs
    → n < length dest
    → (c_string (set (overwrite dest (take n cs)) n 0) ≡ take n cs)
      × (length (overwrite dest (take n cs)) ≡ length dest)
unfolding overwrite c_string
overwritten [] cs n t h k = absurd (omega arith)
overwritten (x ∷ dest) cs zero t h k = (refl, refl)
overwritten (x ∷ dest) [] (suc n) t h k = absurd (omega arith)
overwritten (x ∷ dest) (c ∷ cs) (suc n) t h k =
    let (text, size) = overwritten dest cs n t.1 (omega arith) (omega arith) in
    (ground (arith, t.0, text), ap suc size)

pub take_enough : (cs : List ℕ) (n : ℕ) → length cs ≤ n → take n cs ≡ cs
take_enough [] zero h = refl
take_enough [] (suc n) h = refl
take_enough (c ∷ cs) zero h = absurd (omega arith)
take_enough (c ∷ cs) (suc n) h = ap (◌∷◌ c) (take_enough cs n (omega arith))

take_min : (cs : List ℕ) (n : ℕ) → take (min_size n (length cs)) cs ≡ take n cs
take_min cs n = ground (arith, take_enough cs n, take_enough cs (length cs))

length-take_min : (cs : List ℕ) (n : ℕ) → length (take n cs) ≡ min_size n (length cs)
length-take_min [] zero = refl
length-take_min [] (suc n) = ground arith
length-take_min (c ∷ cs) zero = ground arith
length-take_min (c ∷ cs) (suc n) = ground (arith, length-take_min cs n)

abbrev copied : List ℕ → List ℕ → ℕ → List ℕ
copied dest text n = set (overwrite dest (take n text)) n 0

string_copy-copied :
    (dest str : List ℕ) (start : ℕ)
    → start ≤ length str
    → string_copy dest str start
      ≡ some (
        copied dest (drop start str) (min_size (length dest - 1) (length str - start)),
        min_size (length dest - 1) (length str - start),
      )
unfolding string_copy
string_copy-copied dest str start h = ground arith

-- For a text and a start within it, `string_copy` into an array of at least one character leaves an
-- array of the same size, which holds, up to its first zero, what fits of the text from
-- the start on, and returns the length of that.
pub string_copy-c_string :
    (dest str : List ℕ) (start : ℕ)
    → IsText str
    → start ≤ length str
    → 0 < length dest
    → (d : List ℕ) × (string_copy dest str start
        ≡ some (d, length (take (length dest - 1) (drop start str))))
      × (c_string d ≡ take (length dest - 1) (drop start str))
      × (length d ≡ length dest)
string_copy-c_string dest str start t h k =
    let text = drop start str in
    let room = length dest - 1 in
    let n = min_size room (length text) in
    let size = length-drop start str in
    let (holds, same) =
      overwritten dest text n (IsText-drop start str t) (ground arith) (ground (arith, k)) in
    (
      set (overwrite dest (take n text)) n 0,
      string_copy-copied dest str start h
          ∙ ap (λ j. some (copied dest text (min_size room j), min_size room j)) (sym size)
          ∙ ap (λ j. some (copied dest text n, j)) (sym (length-take_min text room)),
      holds ∙ take_min text room,
      length-set _ n 0 ∙ same,
    )
