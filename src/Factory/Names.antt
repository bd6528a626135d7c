-- ===== src/Factory/Names.antt =====
-- What src/plvcore/PipelineElementFactory.cpp makes under a name, after any calls.
use parlevision.Base.{
  ℕ, ◌≡◌, refl, sym, ap, ◌∙◌, List, [], ◌∷◌, ◌++◌, none, some, ◌==◌, length, length-append,
  length-set, contains, arith, Bool-cases, Option-cases, inl, inr, ◌⊎◌, subst,
}
use parlevision.Base.Table.{lookup, insert, keys, lookup-insert}
use parlevision.Factory.{
  Constructor, Factory, new_factory, register_element, unregister_element, make, Call, register,
  unregister, call, run,
}
use parlevision.Factory.Holds.{
  Status, unknown, next_status, status, value_of_status, Holds, IdsApart, IdsInRange, make-Holds,
  call-Holds,
}

module _ {E : Type 0} where
  unregister-ids : (other : ℕ) (f : Factory E) → (unregister_element other f).ids ≡ f.ids
  unfolding unregister_element
  unregister-ids other f = elim (Option-cases (lookup other f.ids)) [
    | inl g ↦ rw (unregister_element, g) refl
    | inr (i, g) ↦ rw (unregister_element, g) refl
  ]

  unregister-length :
      (other : ℕ) (f : Factory E)
      → length (unregister_element other f).constructors ≡ length f.constructors
  unfolding unregister_element
  unregister-length other f = elim (Option-cases (lookup other f.ids)) [
    | inl g ↦ rw (unregister_element, g) refl
    | inr (i, g) ↦ rw (unregister_element, g) (length-set f.constructors i none)
  ]

  abbrev added : Constructor E → Factory E → Factory E
  added c f = record f {
    constructors = f.constructors ++ some c ∷ [];
    ids = insert c.class_name (length f.constructors) f.ids;
  }

  register-cases :
      (c : Constructor E) (f : Factory E)
      → ((register_element c f).1 ≡ f) ⊎ ((register_element c f).1 ≡ added c f)
  unfolding register_element
  register-cases c f = elim (Bool-cases (contains c.class_name (keys f.ids))) [
    | inl e ↦ inl (rw e refl)
    | inr e ↦ inr (rw e refl)
  ]

  added-id :
      (c : Constructor E) (f : Factory E) (n id : ℕ)
      → lookup n (added c f).ids ≡ some id
      → ((c.class_name ≡ n) × (id ≡ length f.constructors)) ⊎ (lookup n f.ids ≡ some id)
  added-id c f n id h = elim (Bool-cases (c.class_name == n)) [
    | inl e ↦
        let found : lookup n (added c f).ids ≡ some (length f.constructors) =
          lookup-insert c.class_name n (length f.constructors) f.ids ∙ rw e refl in
        inl (ground (arith, e), ground (arith, sym h ∙ found))
    | inr e ↦ inr (sym (lookup-insert c.class_name n (length f.constructors) f.ids ∙ rw e refl) ∙ h)
  ]

  added-IdsInRange : (c : Constructor E) (f : Factory E) → IdsInRange f → IdsInRange (added c f)
  added-IdsInRange c f range n id h =
      let size = length-append f.constructors (some c ∷ []) in
      elim (added-id c f n id h) [
        | inl (q, r) ↦ ground (arith, r, size)
        | inr g ↦ ground (arith, range n id g, size)
      ]

  added-IdsApart :
      (c : Constructor E) (f : Factory E) → IdsInRange f → IdsApart f → IdsApart (added c f)
  added-IdsApart c f range apart m n id g h = elim (added-id c f m id g) [
    | inl (q, r) ↦ elim (added-id c f n id h) [
      | inl (s, t) ↦ ground (arith, q, s)
      | inr old ↦ absurd (ground (arith, range n id old, r))
    ]
    | inr old ↦ elim (added-id c f n id h) [
      | inl (s, t) ↦ absurd (ground (arith, range m id old, t))
      | inr same ↦ apart m n id old same
    ]
  ]

  call-IdsInRange : (c : Call E) (f : Factory E) → IdsInRange f → IdsInRange (call c f)
  unfolding call
  call-IdsInRange (register c) f range = elim (register-cases c f) [
    | inl q ↦ subst IdsInRange (sym q) range
    | inr q ↦ subst IdsInRange (sym q) (added-IdsInRange c f range)
  ]
  call-IdsInRange (unregister other) f range = λ n id h.
      let old = range n id (ap (lookup n) (sym (unregister-ids other f)) ∙ h) in
      ground (arith, old, unregister-length other f)

  call-IdsApart : (c : Call E) (f : Factory E) → IdsInRange f → IdsApart f → IdsApart (call c f)
  unfolding call
  call-IdsApart (register c) f range apart = elim (register-cases c f) [
    | inl q ↦ subst IdsApart (sym q) apart
    | inr q ↦ subst IdsApart (sym q) (added-IdsApart c f range apart)
  ]
  call-IdsApart (unregister other) f range apart = λ m n id g h.
      let same = sym (unregister-ids other f) in
      apart m n id (ap (lookup m) same ∙ g) (ap (lookup n) same ∙ h)

  run-Holds :
      (calls : List (Call E)) (name : ℕ) (f : Factory E) (s : Status E)
      → IdsInRange f
      → IdsApart f
      → Holds f name s
      → Holds (run calls f) name (status name calls s)
  unfolding run status
  run-Holds [] name f s range apart h = h
  run-Holds (c ∷ cs) name f s range apart h =
      run-Holds cs name (call c f) (next_status name c s) (call-IdsInRange c f range)
        (call-IdsApart c f range apart) (call-Holds c name f s apart h)

  -- After any calls that register and unregister classes, elementId and construct together never
  -- fail, and make under a name what the first class makes that was registered under it, if it was
  -- not unregistered since; if it was, or if there was none, they refuse, and if it was, they do so
  -- for ever, as the name cannot be registered again.
  pub make-status :
      (calls : List (Call E)) (name : ℕ)
      → make name (run calls new_factory) ≡ value_of_status (status name calls unknown)
  unfolding lookup
  make-status calls name = make-Holds name (run calls new_factory) (status name calls unknown) (
      run-Holds calls name new_factory unknown (λ n id h. absurd (ground (arith, h)))
        (λ m n id g h. absurd (ground (arith, h))) refl)
