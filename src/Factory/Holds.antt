-- ===== src/Factory/Holds.antt =====
-- What a factory of src/plvcore/PipelineElementFactory.cpp holds under a name.
use parlevision.Base.{
  ℕ, ◌≡◌, refl, sym, ap, ◌∙◌, true, false, List, [], ◌∷◌, ◌++◌, none, some, ◌==◌, ltb,
  if◌then◌else◌, length, get_elem?, set, get_elem?-before, get_elem?-last, get_elem?-bound,
  get_elem?-set, get_elem?-set_other, contains, arith, Bool-cases, Option-cases, inl, inr,
}
use parlevision.Base.Table.{lookup, insert, keys, lookup-insert, lookup-contains, apart_of_absent}
use parlevision.Factory.{
  Constructor, Factory, Answer, answer, refused, register_element, unregister_element, element_id,
  construct, make, Call, register, unregister, call,
}

-- What there is under a name.
pub data Status (E : Type 0) : Type 0 where
  unknown : Status E
  known : Constructor E → Status E
  gone : Status E

module _ {E : Type 0} where
  -- The first registration of a name counts, and ends with the next call that takes it back. After
  -- that the name is lost.
  pub next_status : ℕ → Call E → Status E → Status E
  next_status name (register c) unknown = if c.class_name == name then known c else unknown
  next_status name (register c) (known d) = known d
  next_status name (register c) gone = gone
  next_status name (unregister other) unknown = unknown
  next_status name (unregister other) (known d) = if other == name then gone else known d
  next_status name (unregister other) gone = gone

  unfoldable pub status : ℕ → List (Call E) → Status E → Status E
  unfolding next_status
  status name [] s = s
  status name (c ∷ cs) s = status name cs (next_status name c s)

  abbrev pub value_of_status : Status E → Answer E
  value_of_status unknown = refused
  value_of_status (known c) = answer c.made
  value_of_status gone = refused

  -- Whether a factory holds a name with a status.
  abbrev pub Holds : Factory E → ℕ → Status E → Type 0
  Holds f name unknown = lookup name f.ids ≡ none
  Holds f name (known c) =
      (id : ℕ) × (lookup name f.ids ≡ some id) × (get_elem? f.constructors id ≡ some (some c))
  Holds f name gone =
      (id : ℕ) × (lookup name f.ids ≡ some id) × (get_elem? f.constructors id ≡ some none)

  abbrev pub IdsApart : Factory E → Type 0
  IdsApart f = (m n id : ℕ) → lookup m f.ids ≡ some id → lookup n f.ids ≡ some id → (m == n) ≡ true

  abbrev pub IdsInRange : Factory E → Type 0
  IdsInRange f = (n id : ℕ) → lookup n f.ids ≡ some id → ltb id (length f.constructors) ≡ true

  pub make-Holds :
      (name : ℕ) (f : Factory E) (s : Status E) → Holds f name s → make name f ≡ value_of_status s
  unfolding make construct element_id
  make-Holds name f unknown h = rw (make, element_id, h) refl
  make-Holds name f (known c) (id, there, found) =
      let low : ltb (length f.constructors) id ≡ false =
        ground (arith, get_elem?-bound f.constructors (some c) id found) in
      rw (make, element_id, there, found, construct, low, found) refl
  make-Holds name f gone (id, there, found) = rw (make, element_id, there, found) refl

  register-Holds :
      (c : Constructor E) (name : ℕ) (f : Factory E) (s : Status E)
      → Holds f name s
      → Holds (register_element c f).1 name (next_status name (register c) s)
  unfolding register_element next_status
  register-Holds c name f s h = elim (Bool-cases (contains c.class_name (keys f.ids))) [
    | inl used ↦ rw used (kept s h used)
    | inr free ↦ rw free (added s h free)
  ]
    where
      kept :
          (s : Status E)
          → Holds f name s
          → contains c.class_name (keys f.ids) ≡ true
          → Holds f name (next_status name (register c) s)
      kept unknown h used =
          let apart : (c.class_name == name) ≡ false = elim (Bool-cases (c.class_name == name)) [
            | inr e ↦ e
            | inl e ↦
                let q : c.class_name ≡ name = ground (arith, e) in
                absurd (
                  ground (
                    arith,
                    sym used ∙ ap (λ i. contains i (keys f.ids)) q ∙ lookup-contains name f.ids h,
                  ))
          ] in
          rw apart h
      kept (known d) h used = h
      kept gone h used = h

      stays :
          (id : ℕ)
          → lookup name f.ids ≡ some id
          → contains c.class_name (keys f.ids) ≡ false
          → lookup name (insert c.class_name (length f.constructors) f.ids) ≡ some id
      stays id there free =
          lookup-insert c.class_name name (length f.constructors) f.ids
          ∙ rw (apart_of_absent c.class_name name id f.ids there free) there

      added :
          (s : Status E)
          → Holds f name s
          → contains c.class_name (keys f.ids) ≡ false
          → Holds
              (record f {
                constructors = f.constructors ++ some c ∷ [];
                ids = insert c.class_name (length f.constructors) f.ids;
              })
              name
              (next_status name (register c) s)
      added unknown h free = elim (Bool-cases (c.class_name == name)) [
        | inl e ↦ rw e (
          length f.constructors,
          lookup-insert c.class_name name (length f.constructors) f.ids ∙ rw e refl,
          get_elem?-last f.constructors (some c),
        )
        | inr e ↦ rw e (lookup-insert c.class_name name (length f.constructors) f.ids ∙ rw e h)
      ]
      added (known d) (id, there, found) free =
          (id, stays id there free, get_elem?-before f.constructors (some c) (some d) id found)
      added gone (id, there, found) free =
          (id, stays id there free, get_elem?-before f.constructors (some c) none id found)

  none-apart :
      (other name id : ℕ) (f : Factory E)
      → lookup other f.ids ≡ none
      → lookup name f.ids ≡ some id
      → (other == name) ≡ false
  none-apart other name id f g h =
      apart_of_absent other name id f.ids h (lookup-contains other f.ids g)

  unregister-missing :
      (other name : ℕ) (f : Factory E) (s : Status E)
      → lookup other f.ids ≡ none
      → Holds f name s
      → Holds f name (next_status name (unregister other) s)
  unfolding next_status
  unregister-missing other name f unknown g h = h
  unregister-missing other name f (known d) g (id, there, found) =
      rw (none-apart other name id f g there) (id, there, found)
  unregister-missing other name f gone g h = h

  -- The constructors when that with an id is taken out.
  abbrev without : ℕ → Factory E → Factory E
  without i f = record f { constructors = set f.constructors i none }

  unregister-found :
      (other name i : ℕ) (f : Factory E) (s : Status E)
      → IdsApart f
      → lookup other f.ids ≡ some i
      → Holds f name s
      → Holds (without i f) name (next_status name (unregister other) s)
  unfolding next_status
  unregister-found other name i f unknown apart g h = h
  unregister-found other name i f (known d) apart g (id, there, found) =
      elim (Bool-cases (other == name)) [
        | inl e ↦
            let q : other ≡ name = ground (arith, e) in
            let same : i ≡ id = ground (arith, sym g ∙ ap (λ k. lookup k f.ids) q ∙ there) in
            rw e (
              id,
              there,
              ap (λ k. get_elem? (set f.constructors k none) id) same
                  ∙ get_elem?-set f.constructors id (some d) none found,
            )
        | inr e ↦
            let differ : (i == id) ≡ false = elim (Bool-cases (i == id)) [
              | inr z ↦ z
              | inl z ↦
                  let q : i ≡ id = ground (arith, z) in
                  absurd (ground (arith, e, apart other name id (g ∙ ap some q) there))
            ] in
            rw e (id, there, get_elem?-set_other f.constructors i id none differ ∙ found)
      ]
  unregister-found other name i f gone apart g (id, there, found) = elim (Bool-cases (i == id)) [
    | inl e ↦
        let q : i ≡ id = ground (arith, e) in
        (
          id,
          there,
          ap (λ k. get_elem? (set f.constructors k none) id) q
              ∙ get_elem?-set f.constructors id none none found,
        )
    | inr e ↦ (id, there, get_elem?-set_other f.constructors i id none e ∙ found)
  ]

  pub call-Holds :
      (c : Call E) (name : ℕ) (f : Factory E) (s : Status E)
      → IdsApart f
      → Holds f name s
      → Holds (call c f) name (next_status name c s)
  unfolding call unregister_element
  call-Holds (register c) name f s apart h = register-Holds c name f s h
  call-Holds (unregister other) name f s apart h = elim (Option-cases (lookup other f.ids)) [
    | inl g ↦ rw (unregister_element, g) (unregister-missing other name f s g h)
    | inr (i, g) ↦ rw (unregister_element, g) (unregister-found other name i f s apart g h)
  ]
