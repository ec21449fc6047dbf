-- ===== src/Bitmap/Paint.antt =====
-- A loop that changes elements of a list in place, each at most once.
use hodgepodge.Prelude.{
  ℕ, ◌<◌, ◌≡◌, ◌≢◌, refl, sym, ap, ◌∙◌, List, [], ◌∷◌, Option, some, length, get_elem?-some,
  get_elem?, set, All, All-imp, length-set, arith, ◌>>=◌,
}
use mathlib.Core.Option.{some-injective}
use hodgepodge.Gemm.{for_each}
use hodgepodge.Gemm.Grid.{get_elem?-set_same, get_elem?-set_other}

module _ {X P : Type 0} (place : X → ℕ) (f : X → P → P) where
  -- Each place is beside all later ones.
  abbrev pub Rising : List X → Type 0
  Rising [] = Unit
  Rising (x ∷ xs) = All (λ y. place x < place y) xs × Rising xs

  -- The body changes the element at the place.
  abbrev pub Paints : (X → List P → Option (List P)) → X → Type 0
  Paints body x =
      (c : List P) (p : P)
      → get_elem? c (place x) ≡ some p
      → body x c ≡ some (set c (place x) (f x p))

  pub record Painted (items : List X) (c c' : List P) : Type 0 where
    pub same_length : length c' ≡ length c
    pub elsewhere : (m : ℕ) → All (λ x. place x ≢ m) items → get_elem? c' m ≡ get_elem? c m
    pub painted :
        All
          (λ x. (p : P) → get_elem? c (place x) ≡ some p → get_elem? c' (place x) ≡ some (f x p))
          items

All-both :
    {X : Type 0} (P Q R : X → Type 0)
    → ((x : X) → P x → Q x → R x)
    → (xs : List X) → All P xs
    → All Q xs
    → All R xs
All-both P Q R f [] h k = tt
All-both P Q R f (x ∷ xs) (h, hs) (k, ks) = (f x h k, All-both P Q R f xs hs ks)

module _ {X P : Type 0} (place : X → ℕ) (f : X → P → P) (body : X → List P → Option (List P)) where
  -- The loop paints the places, and leaves the others.
  pub for_each-Painted :
      (items : List X) (c : List P)
      → All (Paints place f body) items
      → Rising place f items
      → All (λ x. place x < length c) items
      → (c' : List P) × (for_each items body c ≡ some c') × Painted place f items c c'
  unfolding for_each
  for_each-Painted [] c paints rising inside =
      (c, refl, record { same_length = refl; elsewhere = λ m h. refl; painted = tt })
  for_each-Painted (x ∷ xs) c (paint, paints) (later, rising) (here, inside) =
      let (p, e) = get_elem?-some c (place x) here in
      let v = f x p in
      let c1 = set c (place x) v in
      let size : length c1 ≡ length c = length-set c (place x) v in
      let (c', e', d) = for_each-Painted xs c1 paints rising (
        All-imp (λ y. place y < length c) (λ y. place y < length c1) (λ y h. rw size h) xs
          inside) in
      (
        c',
        rw (paint c p e, ◌>>=◌) e',
        record {
          same_length = d.same_length ∙ size;
          elsewhere = λ m h. d.elsewhere m h.1 ∙ get_elem?-set_other c (place x) m v h.0;
          painted = (
            λ p' k.
                d.elsewhere (place x) (
                  All-imp (λ y. place x < place y) (λ y. place y ≢ place x)
                    (λ y h q. absurd (omega arith)) xs later)
                ∙ get_elem?-set_same c (place x) v here
                ∙ ap (λ z. some (f x z)) (some-injective p p' (sym e ∙ k)),
            All-both (λ y. place x < place y)
                (λ y.
                  (p' : P)
                  → get_elem? c1 (place y) ≡ some p'
                  → get_elem? c' (place y) ≡ some (f y p'))
                (λ y.
                  (p' : P)
                  → get_elem? c (place y) ≡ some p'
                  → get_elem? c' (place y) ≡ some (f y p'))
                (λ y h g p' k.
                  g p'
                    (get_elem?-set_other c (place x) (place y) v (λ q. absurd (omega arith)) ∙ k))
                xs later d.painted,
          );
        },
      )
