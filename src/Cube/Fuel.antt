-- ===== src/Cube/Fuel.antt =====
-- The search ends: each round but the last fixes a node that was not fixed.
use hodgepodge.Prelude.{
  ℕ, zero, suc, ◌+◌, ◌≤◌, ◌<◌, ◌≡◌, refl, sym, subst, ◌⊎◌, inl, inr, ◌↔◌, Bool, true, false, List,
  [], ◌∷◌, some, arith, Bool-cases, if◌then◌else◌, length,
}
use hodgepodge.Cube.Search.{Nodes, member, insert, add_node, derive, visit, level, search_from}
use hodgepodge.Cube.Derive.{In, In-cons, In-head, In-insert, add_node-fixed, add_node-source}
use hodgepodge.Cube.Complete.{Holds, visit-Holds, visit-fixed, acted, acted-fixed}

module _ {ℓ} {A : Type ℓ} (eq : A → A → Bool) (moves : A → List A)
    (eq_iff : (x y : A) → (eq x y ≡ true) ↔ (x ≡ y)) where
  abbrev IsNew : A → List A → Type 0
  IsNew x s = member eq x s ≡ false

  -- What is missing later was missing before.
  abbrev Grows : List A → List A → Type ℓ
  Grows s t = (x : A) → In eq eq_iff x s → In eq eq_iff x t

  IsNew-Grows : (x : A) (s t : List A) → Grows s t → IsNew x t → IsNew x s
  IsNew-Grows x s t g n = elim (Bool-cases (member eq x s)) [
    | inl old ↦ absurd (cc (g x old))
    | inr new ↦ new
  ]

  -- How many of the nodes of `all` are not fixed.
  missing : List A → List A → ℕ
  missing [] fixed = 0
  missing (u ∷ all) fixed = (if member eq u fixed then 0 else 1) + missing all fixed

  missing-le : (all s t : List A) → Grows s t → missing all t ≤ missing all s
  unfolding missing
  missing-le [] s t g = omega arith
  missing-le (u ∷ all) s t g = ground (arith, g u, missing-le all s t g)

  missing-lt :
      (all s t : List A) (n : A)
      → Grows s t
      → In eq eq_iff n all
      → IsNew n s
      → In eq eq_iff n t
      → missing all t < missing all s
  unfolding missing member
  missing-lt [] s t n g h new old = cc
  missing-lt (u ∷ all) s t n g h new old = elim ((In-cons eq eq_iff n u all).0 h) [
    | inl e ↦ ground (
      arith,
      missing-le all s t g,
      subst (λ z. IsNew z s) e new,
      subst (λ z. In eq eq_iff z t) e old,
    )
    | inr later ↦ ground (arith, g u, missing-lt all s t n g later new old)
  ]

  missing-le-length : (all s : List A) → missing all s ≤ length all
  unfolding missing
  missing-le-length [] s = omega arith
  missing-le-length (u ∷ all) s = ground (arith, missing-le-length all s)

  add_node-IsNew :
      (x n : A) (s : Nodes A)
      → In eq eq_iff x (add_node eq n s).next
      → In eq eq_iff x s.next ⊎ IsNew x s.fixed
  unfolding add_node
  add_node-IsNew x n s h = elim (Bool-cases (member eq n s.fixed)) [
    | inl old ↦ inl (rw (old, add_node) at h)
    | inr new ↦ elim (add_node-source eq eq_iff x n s h) [
      | inl e ↦ inr (subst (λ z. IsNew z s.fixed) (sym e) new)
      | inr before ↦ inl before
    ]
  ]

  derive-IsNew :
      (x : A) (ns : List A) (s : Nodes A)
      → In eq eq_iff x (derive eq ns s).next
      → In eq eq_iff x s.next ⊎ IsNew x s.fixed
  unfolding derive
  derive-IsNew x [] s h = inl h
  derive-IsNew x (n ∷ ns) s h = elim (derive-IsNew x ns (add_node eq n s) h) [
    | inl added ↦ add_node-IsNew x n s added
    | inr new ↦ inr (
        IsNew-Grows x s.fixed (add_node eq n s).fixed
          (λ y k. (add_node-fixed eq eq_iff y n s).1 (inr k)) new)
  ]

  visit-IsNew :
      (x : A) (cs : List A) (s : Nodes A)
      → In eq eq_iff x (visit eq moves cs s).next
      → In eq eq_iff x s.next ⊎ IsNew x s.fixed
  unfolding visit
  visit-IsNew x [] s h = inl h
  visit-IsNew x (c ∷ cs) s h = elim (visit-IsNew x cs (acted eq moves eq_iff c s) h) [
    | inl next ↦ elim (derive-IsNew x (moves c) _ next) [
      | inl before ↦ inl before
      | inr new ↦ inr (
          IsNew-Grows x s.fixed (insert eq c s.fixed)
            (λ y k. (In-insert eq eq_iff y c s.fixed).1 (inr k)) new)
    ]
    | inr new ↦ inr (
        IsNew-Grows x s.fixed (acted eq moves eq_iff c s).fixed
          (λ y k. acted-fixed eq moves eq_iff c y s k) new)
  ]

  -- A round that leaves something to do has fixed a node of `all` that was not fixed.
  level-missing :
      (all acting fixed next : List A) (n : A)
      → (level eq moves acting fixed).next ≡ n ∷ next
      → Holds eq moves eq_iff (λ x. In eq eq_iff x all) (level eq moves acting fixed).next
      → In eq eq_iff n (level eq moves acting fixed).fixed
      → missing all (level eq moves acting fixed).fixed < missing all fixed
  unfolding level member
  level-missing all acting fixed next n e inside there =
      elim (visit-IsNew n acting (record { fixed = fixed; next = [] }) here) [
        | inl nothing ↦ cc
        | inr new ↦
            missing-lt all fixed _ n (λ x h. visit-fixed eq moves eq_iff acting x _ h)
              (inside n here) new there
      ]
    where
      here : In eq eq_iff n (visit eq moves acting (record { fixed = fixed; next = [] })).next
      here = rw e (In-head eq eq_iff n next)

  -- The nodes for the next round are fixed.
  abbrev IsTracked : Nodes A → Type ℓ
  IsTracked s = Grows s.next s.fixed

  derive-IsTracked : (ns : List A) (s : Nodes A) → IsTracked s → IsTracked (derive eq ns s)
  unfolding derive
  derive-IsTracked [] s t = t
  derive-IsTracked (n ∷ ns) s t = derive-IsTracked ns (add_node eq n s) added
    where
      added : IsTracked (add_node eq n s)
      added x h = elim (add_node-source eq eq_iff x n s h) [
        | inl e ↦ (add_node-fixed eq eq_iff x n s).1 (inl e)
        | inr before ↦ (add_node-fixed eq eq_iff x n s).1 (inr (t x before))
      ]

  visit-IsTracked : (cs : List A) (s : Nodes A) → IsTracked s → IsTracked (visit eq moves cs s)
  unfolding visit
  visit-IsTracked [] s t = t
  visit-IsTracked (c ∷ cs) s t =
      visit-IsTracked cs (acted eq moves eq_iff c s)
        (derive-IsTracked (moves c) _ (λ x h. (In-insert eq eq_iff x c s.fixed).1 (inr (t x h))))

  level-IsTracked : (acting fixed : List A) → IsTracked (level eq moves acting fixed)
  unfolding level member
  level-IsTracked acting fixed = visit-IsTracked acting _ (λ x h. cc)

  abbrev Inside : List A → List A → Type ℓ
  Inside all = Holds eq moves eq_iff (λ x. In eq eq_iff x all)

  level-Inside :
      (all acting fixed : List A)
      → ((x : A) → In eq eq_iff x all → Inside all (moves x))
      → Inside all acting
      → Inside all fixed
      → Inside all (level eq moves acting fixed).fixed
        × Inside all (level eq moves acting fixed).next
  unfolding level member
  level-Inside all acting fixed keep a f =
      visit-Holds eq moves eq_iff (λ x. In eq eq_iff x all) keep acting _ a f (λ x h. cc)

  -- A round leaves nothing to do, or fewer nodes missing.
  level-progress :
      (all acting fixed next : List A)
      → ((x : A) → In eq eq_iff x all → Inside all (moves x))
      → Inside all acting
      → Inside all fixed
      → (level eq moves acting fixed).next ≡ next
      → (next ≡ []) ⊎ (missing all (level eq moves acting fixed).fixed < missing all fixed)
  level-progress all acting fixed [] keep a f e = inl refl
  level-progress all acting fixed (n ∷ next) keep a f e = inr (
      level-missing all acting fixed next n e (level-Inside all acting fixed keep a f).1
        (level-IsTracked acting fixed n (rw e (In-head eq eq_iff n next))))

  search_from-ends :
      (all : List A)
      → ((x : A) → In eq eq_iff x all → Inside all (moves x))
      → (fuel : ℕ) (acting fixed : List A) → Inside all acting
      → Inside all fixed
      → (acting ≡ []) ⊎ (missing all fixed + 1 < fuel)
      → 0 < fuel
      → (out : List A) × (search_from eq moves fuel acting fixed ≡ some out)
  unfolding search_from
  search_from-ends all keep zero acting fixed a f h some_fuel = absurd (omega arith)
  search_from-ends all keep (suc fuel) [] fixed a f h some_fuel = (fixed, refl)
  search_from-ends all keep (suc fuel) (c ∷ cs) fixed a f h some_fuel =
      search_from-ends all keep fuel after.next after.fixed both.1 both.0 room
        (omega (arith, enough h))
    where
      after : Nodes A
      after = level eq moves (c ∷ cs) fixed

      both : Inside all after.fixed × Inside all after.next
      both = level-Inside all (c ∷ cs) fixed keep a f

      enough :
          (◌≡◌ {A = List A} (c ∷ cs) [] ⊎ missing all fixed + 1 < suc fuel)
          → missing all fixed + 1 < suc fuel
      enough (inl e) = cc
      enough (inr lt) = lt

      room : (after.next ≡ []) ⊎ (missing all after.fixed + 1 < fuel)
      room = elim (level-progress all (c ∷ cs) fixed after.next keep a f refl) [
        | inl e ↦ inl e
        | inr fewer ↦ inr (omega (arith, fewer, enough h))
      ]

  -- If `root` and all that moves lead to from there lie in a list `all`, the search from `root` ends
  -- within two rounds more than the list is long.
  pub search_ends :
      (all : List A) (root : A) (fuel : ℕ)
      → ((x : A) → In eq eq_iff x all → (y : A) → In eq eq_iff y (moves x) → In eq eq_iff y all)
      → In eq eq_iff root all
      → length all + 1 < fuel
      → (out : List A) × (search_from eq moves fuel (root ∷ []) [] ≡ some out)
  unfolding member
  search_ends all root fuel keep inside enough =
      search_from-ends all keep fuel (root ∷ []) [] only (λ x h. cc)
        (inr (omega (arith, missing-le-length all []))) (omega arith)
    where
      only : Inside all (root ∷ [])
      only x h = elim ((In-cons eq eq_iff x root []).0 h) [
        | inl e ↦ subst (λ z. In eq eq_iff z all) (sym e) inside
        | inr nothing ↦ cc
      ]
