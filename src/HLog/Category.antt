-- ===== src/HLog/Category.antt =====
-- The name of a category: the name of the source file without its directory and its last extension.
use hodgepodge.Prelude.{
  ℕ, ◌+◌, ◌-◌, ◌%◌, ◌^◌, ◌≤◌, ◌<◌, ◌≡◌, refl, ap, ◌∙◌, ◌⊎◌, inl, inr, Option-cases, Bool, false,
  List, [], ◌∷◌, ◌++◌, Option, none, some, if◌then◌else◌, ltb, ◌==◌, length, take, drop, All, arith,
  length-append, take-append, drop-append,
}
use mathlib.Core.List.{append-nil}
use hodgepodge.Uds.Strings.{take_enough}
use hodgepodge.HLog.{rfind, as_size, substr, category_of}

-- The character is not in the text.
abbrev pub Lacks : ℕ → List ℕ → Type 0
Lacks c = All (λ x. (x == c) ≡ false)

rfind_nowhere : (c : ℕ) (xs : List ℕ) → Lacks c xs → rfind c xs ≡ none
unfolding rfind
rfind_nowhere c [] h = refl
rfind_nowhere c (x ∷ xs) h = ground (arith, rfind_nowhere c xs h.1, h.0)

rfind_right :
    (c i : ℕ) (xs ys : List ℕ) → rfind c ys ≡ some i → rfind c (xs ++ ys) ≡ some (length xs + i)
unfolding rfind
rfind_right c i [] ys h = h ∙ ap some (omega arith)
rfind_right c i (x ∷ xs) ys h = rw (rfind_right c i xs ys h, rfind) (ap some (omega arith))

rfind_left : (c : ℕ) (xs ys : List ℕ) → rfind c ys ≡ none → rfind c (xs ++ ys) ≡ rfind c xs
unfolding rfind
rfind_left c [] ys h = h
rfind_left c (x ∷ xs) ys h = rw (rfind_left c xs ys h, rfind) refl

rfind_inside : (c i : ℕ) (xs : List ℕ) → rfind c xs ≡ some i → i < length xs
unfolding rfind
rfind_inside c i [] h = cc
rfind_inside c i (x ∷ xs) h = elim (Option-cases (rfind c xs)) [
  | inl none_there ↦ ground (arith, none_there)
  | inr (j, there) ↦ ground (arith, there, rfind_inside c j xs there)
]

rfind_first : (c : ℕ) (xs : List ℕ) → Lacks c xs → rfind c (c ∷ xs) ≡ some 0
unfolding rfind
rfind_first c xs h = ground (arith, rfind_nowhere c xs h)

-- A directory as it stands before a file's name: nothing, or a path up to a slash.
pub data IsDirectory (dir : List ℕ) : Type 0 where
  here : dir ≡ [] → IsDirectory dir
  path : (parent : List ℕ) → dir ≡ parent ++ 47 ∷ [] → IsDirectory dir

-- A file's name, with an extension or without.
abbrev pub file_name : List ℕ → Option (List ℕ) → List ℕ
file_name base none = base
file_name base (some ext) = base ++ 46 ∷ ext

-- What is not in the parts of a file's name.
abbrev pub IsName : List ℕ → Option (List ℕ) → Type 0
IsName base none = Lacks 47 base × Lacks 46 base
IsName base (some ext) = Lacks 47 base × Lacks 47 ext × Lacks 46 ext

Lacks-append : (c : ℕ) (xs ys : List ℕ) → Lacks c xs → Lacks c ys → Lacks c (xs ++ ys)
Lacks-append c [] ys h k = k
Lacks-append c (x ∷ xs) ys h k = (h.0, Lacks-append c xs ys h.1 k)

-- Where the last slash is, as a `size_t`: one before the end of the directory.
abbrev IsBefore : ℕ → ℕ → Type 0
IsBefore s n = ((s ≡ 2 ^ 64 - 1) × (n ≡ 0)) ⊎ (s + 1 ≡ n)

slash_place :
    (dir name : List ℕ)
    → IsDirectory dir
    → Lacks 47 name
    → IsBefore (as_size (rfind 47 (dir ++ name))) (length dir)
slash_place dir name (here e) h =
    inl (ap as_size (ap (λ z. rfind 47 (z ++ name)) e ∙ rfind_nowhere 47 name h), ap length e)
slash_place dir name (path parent e) h =
    let found =
      rfind_left 47 dir name (rfind_nowhere 47 name h)
      ∙ ap (rfind 47) e
      ∙ rfind_right 47 0 parent (47 ∷ []) (rfind_first 47 [] tt) in
    inr (omega (arith, ap as_size found, ap length e, length-append parent (47 ∷ [])))

-- A dot before the name, or none at all.
dot_before :
    (dir name : List ℕ)
    → Lacks 46 name
    → (as_size (rfind 46 (dir ++ name)) ≡ 2 ^ 64 - 1)
      ⊎ (as_size (rfind 46 (dir ++ name)) < length dir)
dot_before dir name h =
    let left = rfind_left 46 dir name (rfind_nowhere 46 name h) in
    elim (Option-cases (rfind 46 dir)) [
      | inl missing ↦ inl (ap as_size (left ∙ missing))
      | inr (j, there) ↦ inr (omega (arith, ap as_size (left ∙ there), rfind_inside 46 j dir there))
    ]

start_of : (s n : ℕ) → IsBefore s n → n < 2 ^ 63 → (s + 1) % 2 ^ 64 ≡ n
start_of s n (inl (e, z)) h = omega arith
start_of s n (inr e) h = omega arith

abbrev count_of : ℕ → ℕ → ℕ
count_of dot slash = (dot + 2 ^ 64 - slash + 2 ^ 64 - 1) % 2 ^ 64

count_dotted : (s n b : ℕ) → IsBefore s n → n + b < 2 ^ 63 → count_of (n + b) s ≡ b
count_dotted s n b (inl (e, z)) h = omega arith
count_dotted s n b (inr e) h = omega arith

count_plain :
    (s n b dot : ℕ)
    → IsBefore s n
    → (dot ≡ 2 ^ 64 - 1) ⊎ (dot < n)
    → n + b < 2 ^ 63
    → b ≤ count_of dot s
count_plain s n b dot (inl (e, z)) (inl f) h = omega arith
count_plain s n b dot (inl (e, z)) (inr f) h = absurd (omega arith)
count_plain s n b dot (inr e) (inl f) h = omega arith
count_plain s n b dot (inr e) (inr f) h = omega arith

cut :
    (dir name : List ℕ) (start count : ℕ)
    → start ≡ length dir
    → substr (dir ++ name) start count ≡ some (take count name)
cut dir name start count e =
    let rest =
      drop-append start dir name (omega arith) ∙ ap (λ k. drop k name) {y = 0} (omega arith) in
    within (ltb (length (dir ++ name)) start) (ground (arith, length-append dir name))
      (ap (take count) rest)
  where
    within :
        (b : Bool) {xs ys : List ℕ} → b ≡ false → xs ≡ ys → (if b then none else some xs) ≡ some ys
    within b p q = ground (arith, p, q)

-- For a file of fewer than 2^63 characters, the category is named by the file's name without its
-- directory and, where it has one, without its last extension.
pub category_of_lem :
    (dir base : List ℕ) (ext : Option (List ℕ))
    → IsDirectory dir
    → IsName base ext
    → length (dir ++ file_name base ext) < 2 ^ 63
    → category_of (dir ++ file_name base ext) ≡ some base
unfolding category_of
category_of_lem dir base none d (no_slash, no_dot) size =
    let slash = slash_place dir base d no_slash in
    cut dir base _ _ (start_of _ (length dir) slash (omega (arith, length-append dir base)))
    ∙ ap some (
        take_enough base _ (
          count_plain _ (length dir) (length base) _ slash (dot_before dir base no_dot)
            (omega (arith, length-append dir base))))
category_of_lem dir base (some ext) d (no_slash, no_more, no_dot) size =
    let name = base ++ 46 ∷ ext in
    let slash = slash_place dir name d (Lacks-append 47 base (46 ∷ ext) no_slash (refl, no_more)) in
    let dot =
      rfind_right 46 (length base + 0) dir name
        (rfind_right 46 0 base (46 ∷ ext) (rfind_first 46 ext no_dot)) in
    cut dir name _ _ (start_of _ (length dir) slash (omega (arith, length-append dir name)))
    ∙ ap (λ k. some (take k name))
        (ap (λ z. count_of (as_size z) (as_size (rfind 47 (dir ++ name)))) dot
          ∙ count_dotted _ (length dir) (length base + 0) slash
              (omega (arith, length-append dir name, length-append base (46 ∷ ext))))
    ∙ ap some (
        take-append (length base + 0) base (46 ∷ ext) (omega arith)
        ∙ ap (λ k. base ++ take k (46 ∷ ext)) {y = 0} (omega arith)
        ∙ append-nil base)
