-- ===== src/Cube/Derive.antt =====
-- Membership in the lists of nodes, and what the loop over the moves of a node does to it.
use hodgepodge.Prelude.{
  ◌≡◌, refl, sym, subst, ◌⊎◌, inl, inr, ◌↔◌, Bool, true, List, [], ◌∷◌, ◌++◌, arith, Bool-cases,
}
use hodgepodge.Cube.Search.{Nodes, member, insert, add_node, derive}

module _ {ℓ} {A : Type ℓ} (eq : A → A → Bool) (eq_iff : (x y : A) → (eq x y ≡ true) ↔ (x ≡ y)) where
  abbrev pub In : A → List A → Type 0
  In x s = member eq x s ≡ true

  pub In-cons : (x y : A) (s : List A) → In x (y ∷ s) ↔ ((x ≡ y) ⊎ In x s)
  unfolding member
  In-cons x y s = ground (arith, eq_iff x y)

  pub In-head : (x : A) (s : List A) → In x (x ∷ s)
  In-head x s = (In-cons x x s).1 (inl refl)

  In-tail : (x y : A) (s : List A) → In x s → In x (y ∷ s)
  In-tail x y s h = (In-cons x y s).1 (inr h)

  In-append : (x : A) (s t : List A) → In x (s ++ t) ↔ (In x s ⊎ In x t)
  unfolding member
  In-append x [] t = ground arith
  In-append x (y ∷ s) t = ground (arith, eq_iff x y, In-append x s t)

  absorb : (x y : A) (s : List A) → In y s → (x ≡ y) ⊎ In x s → In x s
  absorb x y s old (inl e) = subst (λ z. In z s) (sym e) old
  absorb x y s old (inr h) = h

  pub In-insert : (x y : A) (s : List A) → In x (insert eq y s) ↔ ((x ≡ y) ⊎ In x s)
  unfolding insert
  In-insert x y s = elim (Bool-cases (member eq y s)) [
    | inl old ↦ rw old (λ h. inr h, absorb x y s old)
    | inr new ↦ rw new (In-cons x y s)
  ]

  pub add_node-fixed :
      (x n : A) (s : Nodes A) → In x (add_node eq n s).fixed ↔ ((x ≡ n) ⊎ In x s.fixed)
  unfolding add_node
  add_node-fixed x n s = elim (Bool-cases (member eq n s.fixed)) [
    | inl old ↦ rw old (λ h. inr h, absorb x n s.fixed old)
    | inr new ↦ rw new (In-insert x n s.fixed)
  ]

  add_node-next : (x n : A) (s : Nodes A) → In x s.next → In x (add_node eq n s).next
  unfolding add_node
  add_node-next x n s h = elim (Bool-cases (member eq n s.fixed)) [
    | inl old ↦ rw old h
    | inr new ↦ rw new ((In-append x s.next (n ∷ [])).1 (inl h))
  ]

  add_node-new :
      (x n : A) (s : Nodes A)
      → In x (add_node eq n s).fixed
      → In x s.fixed ⊎ In x (add_node eq n s).next
  unfolding add_node
  add_node-new x n s h = elim (Bool-cases (member eq n s.fixed)) [
    | inl old ↦ inl (rw (old, add_node) at h)
    | inr new ↦ elim ((add_node-fixed x n s).0 h) [
      | inl e ↦ inr (rw new ((In-append x s.next (n ∷ [])).1 (inr ((In-cons x n []).1 (inl e)))))
      | inr old ↦ inl old
    ]
  ]

  pub add_node-source :
      (x n : A) (s : Nodes A) → In x (add_node eq n s).next → (x ≡ n) ⊎ In x s.next
  unfolding add_node member
  add_node-source x n s h = elim (Bool-cases (member eq n s.fixed)) [
    | inl old ↦ inr (rw (old, add_node) at h)
    | inr new ↦ elim ((In-append x s.next (n ∷ [])).0 (rw (new, add_node) at h)) [
      | inl old ↦ inr old
      | inr last ↦ elim ((In-cons x n []).0 last) [ inl e ↦ inl e | inr no_more ↦ cc ]
    ]
  ]

  pub derive-fixed :
      (x : A) (ns : List A) (s : Nodes A) → In x s.fixed → In x (derive eq ns s).fixed
  unfolding derive
  derive-fixed x [] s h = h
  derive-fixed x (n ∷ ns) s h =
      derive-fixed x ns (add_node eq n s) ((add_node-fixed x n s).1 (inr h))

  pub derive-next : (x : A) (ns : List A) (s : Nodes A) → In x s.next → In x (derive eq ns s).next
  unfolding derive
  derive-next x [] s h = h
  derive-next x (n ∷ ns) s h = derive-next x ns (add_node eq n s) (add_node-next x n s h)

  pub derive-all : (x : A) (ns : List A) (s : Nodes A) → In x ns → In x (derive eq ns s).fixed
  unfolding derive member
  derive-all x [] s h = cc
  derive-all x (n ∷ ns) s h = elim ((In-cons x n ns).0 h) [
    | inl e ↦ derive-fixed x ns (add_node eq n s) ((add_node-fixed x n s).1 (inl e))
    | inr later ↦ derive-all x ns (add_node eq n s) later
  ]

  pub derive-new :
      (x : A) (ns : List A) (s : Nodes A)
      → In x (derive eq ns s).fixed
      → In x s.fixed ⊎ In x (derive eq ns s).next
  unfolding derive
  derive-new x [] s h = inl h
  derive-new x (n ∷ ns) s h = elim (derive-new x ns (add_node eq n s) h) [
    | inl added ↦ elim (add_node-new x n s added) [
      | inl old ↦ inl old
      | inr new ↦ inr (derive-next x ns (add_node eq n s) new)
    ]
    | inr new ↦ inr new
  ]

  pub derive-source :
      (x : A) (ns : List A) (s : Nodes A) → In x (derive eq ns s).next → In x ns ⊎ In x s.next
  unfolding derive
  derive-source x [] s h = inr h
  derive-source x (n ∷ ns) s h = elim (derive-source x ns (add_node eq n s) h) [
    | inl later ↦ inl (In-tail x n ns later)
    | inr added ↦ elim (add_node-source x n s added) [
      | inl e ↦ inl ((In-cons x n ns).1 (inl e))
      | inr old ↦ inr old
    ]
  ]
