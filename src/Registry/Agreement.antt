-- ===== src/Registry/Agreement.antt =====
-- src/plvcore/Pipeline.cpp (addElement, removeElement): the maps of the producers and of the
-- processors agree with the map of all elements.
use parlevision.Base.{
  ℕ, ◌≡◌, refl, true, Option, none, some, ◌==◌, if◌then◌else◌, contains, arith, Bool-cases, inl,
  inr,
}
use parlevision.Base.Table.{keys}
use parlevision.Registry.{
  Role, producing, processing, Registry, can_add_element, id_for, add_element, get_element,
  remove_element,
}
use parlevision.Registry.Maps.{
  Ascending, value, value-insert, value-remove, value-absent, insert-Ascending, remove-Ascending,
  value-of_contains,
}
use parlevision.Registry.Fresh.{new_id-IsFirstFree}

abbrev pub as_producer : Option Role → Option (Unit {0})
as_producer none = none
as_producer (some producing) = some tt
as_producer (some processing) = none

abbrev pub as_processor : Option Role → Option (Unit {0})
as_processor none = none
as_processor (some producing) = none
as_processor (some processing) = some tt

-- The producers are the elements that produce, the processors those that process.
pub record Agrees (r : Registry) : Type 0 where
  pub ascending : Ascending (keys r.children)
  pub ascending_producers : Ascending (keys r.producers)
  pub ascending_processors : Ascending (keys r.processors)
  pub producers : (x : ℕ) → value x r.producers ≡ as_producer (value x r.children)
  pub processors : (x : ℕ) → value x r.processors ≡ as_processor (value x r.children)

id_for-free :
    (wanted : Option ℕ) (r : Registry)
    → Agrees r
    → can_add_element wanted r ≡ true
    → value (id_for wanted r) r.children ≡ none
unfolding can_add_element id_for
id_for-free none r g h =
    value-absent (id_for none r) r.children (new_id-IsFirstFree (keys r.children) g.ascending).free
id_for-free (some id) r g h = value-absent id r.children (ground arith)

-- addElement of an element that canAddElement accepts: it has an id that was free, it is then the
-- element under that id, the elements under all other ids stay, and the maps of the producers and
-- of the processors agree with that of all elements afterwards.
pub add_element-Agrees :
    (wanted : Option ℕ) (role : Role) (r : Registry)
    → Agrees r
    → can_add_element wanted r ≡ true
    → let (id, after) = add_element wanted role r in
      (get_element id r ≡ none)
      × ((x : ℕ) → get_element x after ≡ (if id == x then some role else get_element x r))
      × Agrees after
unfolding add_element get_element
add_element-Agrees wanted producing r g h =
    let id = id_for wanted r in
    let free = id_for-free wanted r g h in
    (
      free,
      λ x. value-insert id x producing r.children,
      record {
        ascending = insert-Ascending id producing r.children g.ascending;
        ascending_producers = insert-Ascending id tt r.producers g.ascending_producers;
        ascending_processors = g.ascending_processors;
        producers = λ x. ground (
          arith,
          value-insert id x tt r.producers,
          value-insert id x producing r.children,
          g.producers x,
        );
        processors =
            λ x. ground (arith, value-insert id x producing r.children, g.processors x, free);
      },
    )
add_element-Agrees wanted processing r g h =
    let id = id_for wanted r in
    let free = id_for-free wanted r g h in
    (
      free,
      λ x. value-insert id x processing r.children,
      record {
        ascending = insert-Ascending id processing r.children g.ascending;
        ascending_producers = g.ascending_producers;
        ascending_processors = insert-Ascending id tt r.processors g.ascending_processors;
        producers =
            λ x. ground (arith, value-insert id x processing r.children, g.producers x, free);
        processors = λ x. ground (
          arith,
          value-insert id x tt r.processors,
          value-insert id x processing r.children,
          g.processors x,
        );
      },
    )

not_other : (o : Option Role) → as_producer o ≡ some tt → as_processor o ≡ none
not_other none h = refl
not_other (some producing) h = refl
not_other (some processing) h = absurd (ground arith)

neither : (o : Option Role) → as_producer o ≡ none → as_processor o ≡ none → o ≡ none
neither none h k = refl
neither (some producing) h k = absurd (ground arith)
neither (some processing) h k = absurd (ground arith)

-- removeElement: there is no element under the id afterwards, the elements under all other ids
-- stay, and the maps of the producers and of the processors agree with that of all elements.
pub remove_element-Agrees :
    (id : ℕ) (r : Registry)
    → Agrees r
    → let after = remove_element id r in
      ((x : ℕ) → get_element x after ≡ (if id == x then none else get_element x r)) × Agrees after
unfolding remove_element get_element
remove_element-Agrees id r g = elim (Bool-cases (contains id (keys r.children))) [
  | inr e ↦ let gone = value-absent id r.children e in rw e (λ x. ground (arith, gone), g)
  | inl e ↦ elim (Bool-cases (contains id (keys r.producers))) [
    | inl p ↦
        let (u, there) = value-of_contains id r.producers p in
        let other = not_other (value id r.children) (ground (arith, g.producers id)) in
        rw (e, p)
          (
            λ x. value-remove id x r.children g.ascending,
            record {
              ascending = remove-Ascending id r.children g.ascending;
              ascending_producers = remove-Ascending id r.producers g.ascending_producers;
              ascending_processors = g.ascending_processors;
              producers = λ x. ground (
                arith,
                value-remove id x r.producers g.ascending_producers,
                value-remove id x r.children g.ascending,
                g.producers x,
              );
              processors = λ x.
                  ground (arith, value-remove id x r.children g.ascending, g.processors x, other);
            },
          )
    | inr p ↦ elim (Bool-cases (contains id (keys r.processors))) [
      | inl q ↦
          let absent = value-absent id r.producers p in
          rw (e, p, q)
            (
              λ x. value-remove id x r.children g.ascending,
              record {
                ascending = remove-Ascending id r.children g.ascending;
                ascending_producers = g.ascending_producers;
                ascending_processors = remove-Ascending id r.processors g.ascending_processors;
                producers = λ x.
                    ground (arith, value-remove id x r.children g.ascending, g.producers x, absent);
                processors = λ x. ground (
                  arith,
                  value-remove id x r.processors g.ascending_processors,
                  value-remove id x r.children g.ascending,
                  g.processors x,
                );
              },
            )
      | inr q ↦
          let (v, there) = value-of_contains id r.children e in
          let absent = value-absent id r.producers p in
          let no_processor = value-absent id r.processors q in
          absurd (
            ground (
              arith,
              neither (value id r.children) (ground (arith, g.producers id))
                  (ground (arith, g.processors id)),
            ))
    ]
  ]
]
