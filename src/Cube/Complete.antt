-- ===== src/Cube/Complete.antt =====
-- What the search finds: the states that the moves reach, and all of them.
use mathlib.Core.Option.{some-injective}
use hodgepodge.Prelude.{
  ℕ, zero, suc, ◌≡◌, refl, sym, subst, ◌⊎◌, inl, inr, ◌↔◌, Bool, true, List, [], ◌∷◌, some,
}
use hodgepodge.Cube.Search.{Nodes, member, insert, derive, visit, level, search_from}
use hodgepodge.Cube.Derive.{
  In, In-cons, In-head, In-insert, derive-fixed, derive-next, derive-all, derive-new, derive-source,
}

-- The states that moves reach from `root`.
pub data Reaches {ℓ} {A : Type ℓ} (eq : A → A → Bool) (moves : A → List A) (root : A)
    : A → Type ℓ where
  here : Reaches eq moves root root
  moved :
      {x : A}
      → Reaches eq moves root x
      → (y : A) → member eq y (moves x) ≡ true
      → Reaches eq moves root y

module _ {ℓ} {A : Type ℓ} (eq : A → A → Bool) (moves : A → List A)
    (eq_iff : (x y : A) → (eq x y ≡ true) ↔ (x ≡ y)) where
  abbrev HasMoves : List A → A → Type ℓ
  HasMoves fixed x = (y : A) → In eq eq_iff y (moves x) → In eq eq_iff y fixed

  -- A fixed node is still to act, or acts in the next round, or all its moves are fixed.
  abbrev Pending : List A → Nodes A → Type ℓ
  Pending todo s =
      (x : A)
      → In eq eq_iff x s.fixed
      → In eq eq_iff x todo ⊎ (In eq eq_iff x s.next ⊎ HasMoves s.fixed x)

  abbrev pub acted : A → Nodes A → Nodes A
  acted c s = derive eq (moves c) (record { fixed = insert eq c s.fixed; next = s.next })

  pub acted-fixed :
      (c x : A) (s : Nodes A) → In eq eq_iff x s.fixed → In eq eq_iff x (acted c s).fixed
  acted-fixed c x s h =
      derive-fixed eq eq_iff x (moves c) _ ((In-insert eq eq_iff x c s.fixed).1 (inr h))

  acted_self : (c : A) (s : Nodes A) → In eq eq_iff c (acted c s).fixed
  acted_self c s =
      derive-fixed eq eq_iff c (moves c) _ ((In-insert eq eq_iff c c s.fixed).1 (inl refl))

  acted-moves : (c : A) (s : Nodes A) → HasMoves (acted c s).fixed c
  acted-moves c s y h = derive-all eq eq_iff y (moves c) _ h

  pub visit-fixed :
      (cs : List A) (x : A) (s : Nodes A)
      → In eq eq_iff x s.fixed
      → In eq eq_iff x (visit eq moves cs s).fixed
  unfolding visit
  visit-fixed [] x s h = h
  visit-fixed (c ∷ cs) x s h = visit-fixed cs x (acted c s) (acted-fixed c x s h)

  visit-all :
      (cs : List A) (x : A) (s : Nodes A)
      → In eq eq_iff x cs
      → In eq eq_iff x (visit eq moves cs s).fixed
  unfolding visit member
  visit-all [] x s h = cc
  visit-all (c ∷ cs) x s h = elim ((In-cons eq eq_iff x c cs).0 h) [
    | inl e ↦
        visit-fixed cs x (acted c s)
          (subst (λ z. In eq eq_iff z (acted c s).fixed) (sym e) (acted_self c s))
    | inr later ↦ visit-all cs x (acted c s) later
  ]

  acted-Pending : (c : A) (cs : List A) (s : Nodes A) → Pending (c ∷ cs) s → Pending cs (acted c s)
  acted-Pending c cs s p x h = elim (derive-new eq eq_iff x (moves c) _ h) [
    | inr new ↦ inr (inl new)
    | inl before ↦ elim ((In-insert eq eq_iff x c s.fixed).0 before) [
      | inl e ↦ inr (inr (self e))
      | inr old ↦ elim (p x old) [
        | inl todo ↦ elim ((In-cons eq eq_iff x c cs).0 todo) [
          | inl e ↦ inr (inr (self e))
          | inr later ↦ inl later
        ]
        | inr (inl next) ↦ inr (inl (derive-next eq eq_iff x (moves c) _ next))
        | inr (inr done) ↦ inr (inr (λ y m. acted-fixed c y s (done y m)))
      ]
    ]
  ]
    where
      self : x ≡ c → HasMoves (acted c s).fixed x
      self e = subst (HasMoves (acted c s).fixed) (sym e) (acted-moves c s)

  visit-Pending : (cs : List A) (s : Nodes A) → Pending cs s → Pending [] (visit eq moves cs s)
  unfolding visit
  visit-Pending [] s p = p
  visit-Pending (c ∷ cs) s p = visit-Pending cs (acted c s) (acted-Pending c cs s p)

  -- Between two rounds.
  abbrev Waiting : List A → List A → Type ℓ
  Waiting acting fixed = (x : A) → In eq eq_iff x fixed → In eq eq_iff x acting ⊎ HasMoves fixed x

  level-Waiting :
      (acting fixed : List A)
      → Waiting acting fixed
      → Waiting (level eq moves acting fixed).next (level eq moves acting fixed).fixed
  unfolding level member
  level-Waiting acting fixed w x h =
      elim (visit-Pending acting (record { fixed = fixed; next = [] }) start x h) [
        | inl nothing ↦ cc
        | inr rest ↦ rest
      ]
    where
      start : Pending acting (record { fixed = fixed; next = [] })
      start y k = elim (w y k) [ inl a ↦ inl a | inr d ↦ inr (inr d) ]

  record IsClosed (acting fixed out : List A) : Type ℓ where
    keeps : (x : A) → In eq eq_iff x fixed → In eq eq_iff x out
    finds : (x : A) → In eq eq_iff x acting → In eq eq_iff x out
    closed : (x : A) → In eq eq_iff x out → HasMoves out x

  search_from-IsClosed :
      (fuel : ℕ) (acting fixed out : List A)
      → Waiting acting fixed
      → search_from eq moves fuel acting fixed ≡ some out
      → IsClosed acting fixed out
  unfolding search_from member level
  search_from-IsClosed zero acting fixed out w e = cc
  search_from-IsClosed (suc fuel) [] fixed out w e =
      subst (IsClosed [] fixed) (some-injective _ _ e) (record {
        keeps = λ x h. h;
        finds = λ x h. cc;
        closed = λ x h. elim (w x h) [ inl nothing ↦ cc | inr done ↦ done ];
      })
  search_from-IsClosed (suc fuel) (c ∷ cs) fixed out w e =
      let rest =
        search_from-IsClosed fuel after.next after.fixed out (level-Waiting (c ∷ cs) fixed w) e in
      record {
        keeps = λ x h. rest.keeps x (visit-fixed (c ∷ cs) x begin h);
        finds = λ x h. rest.keeps x (visit-all (c ∷ cs) x begin h);
        closed = rest.closed;
      }
    where
      begin : Nodes A
      begin = record { fixed = fixed; next = [] }

      after : Nodes A
      after = level eq moves (c ∷ cs) fixed

  -- Every node satisfies `P`.
  abbrev pub Holds {κ} : (A → Type κ) → List A → Type (ℓ ⊔ κ)
  Holds P s = (x : A) → In eq eq_iff x s → P x

  pub visit-Holds {κ} :
      (P : A → Type κ)
      → ((x : A) → P x → Holds P (moves x))
      → (cs : List A) (s : Nodes A) → Holds P cs
      → Holds P s.fixed
      → Holds P s.next
      → Holds P (visit eq moves cs s).fixed × Holds P (visit eq moves cs s).next
  unfolding visit
  visit-Holds P keep [] s a f n = (f, n)
  visit-Holds P keep (c ∷ cs) s a f n =
      visit-Holds P keep cs (acted c s) (λ x h. a x ((In-cons eq eq_iff x c cs).1 (inr h))) fixed'
        next'
    where
      mine : P c
      mine = a c (In-head eq eq_iff c cs)

      next' : Holds P (acted c s).next
      next' x h = elim (derive-source eq eq_iff x (moves c) _ h) [
        | inl m ↦ keep c mine x m
        | inr old ↦ n x old
      ]

      fixed' : Holds P (acted c s).fixed
      fixed' x h = elim (derive-new eq eq_iff x (moves c) _ h) [
        | inr new ↦ next' x new
        | inl before ↦ elim ((In-insert eq eq_iff x c s.fixed).0 before) [
          | inl e ↦ subst P (sym e) mine
          | inr old ↦ f x old
        ]
      ]

  search_from-Holds {κ} :
      (P : A → Type κ)
      → ((x : A) → P x → Holds P (moves x))
      → (fuel : ℕ) (acting fixed out : List A) → Holds P acting
      → Holds P fixed
      → search_from eq moves fuel acting fixed ≡ some out
      → Holds P out
  unfolding search_from member level
  search_from-Holds P keep zero acting fixed out a f e = cc
  search_from-Holds P keep (suc fuel) [] fixed out a f e = subst (Holds P) (some-injective _ _ e) f
  search_from-Holds P keep (suc fuel) (c ∷ cs) fixed out a f e =
      search_from-Holds P keep fuel after.next after.fixed out both.1 both.0 e
    where
      after : Nodes A
      after = level eq moves (c ∷ cs) fixed

      both : Holds P after.fixed × Holds P after.next
      both = visit-Holds P keep (c ∷ cs) _ a f (λ x h. cc)

  -- Where the search from `root` ends, a state is among the nodes that it has fixed exactly when
  -- moves reach it from `root`.
  pub search_finds_reachable :
      (fuel : ℕ) (root : A) (out : List A)
      → search_from eq moves fuel (root ∷ []) [] ≡ some out
      → (x : A) → In eq eq_iff x out ↔ Reaches eq moves root x
  unfolding member
  search_finds_reachable fuel root out e x = (sound x, complete)
    where
      sound : Holds (Reaches eq moves root) out
      sound =
          search_from-Holds (Reaches eq moves root) (λ y r z m. moved r z m) fuel (root ∷ []) [] out
            (λ y h. elim ((In-cons eq eq_iff y root []).0 h) [
              | inl same ↦ subst (Reaches eq moves root) (sym same) here
              | inr nothing ↦ cc
            ])
            (λ y h. cc) e

      all : IsClosed (root ∷ []) [] out
      all = search_from-IsClosed fuel (root ∷ []) [] out (λ y h. cc) e

      complete : {y : A} → Reaches eq moves root y → In eq eq_iff y out
      complete here = all.finds root (In-head eq eq_iff root [])
      complete (moved {x} r y m) = all.closed x (complete r) y m
