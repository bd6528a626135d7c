-- ===== src/Factory.antt =====
-- The classes of elements that plugins register: src/plvcore/PipelineElementFactory.cpp and
-- include/plvcore/PipelineElementFactory.h. Names of classes are only compared, so that they are
-- numbers; the id -1 is `none`.
pub mod Holds
pub mod Names
mod Examples
use parlevision.Base.{
  ℕ, Bool, List, [], ◌∷◌, ◌++◌, Option, none, some, ltb, if◌then◌else◌, length, get_elem?, set,
  contains,
}
use parlevision.Base.Table.{Table, lookup, insert, keys}

-- A PipelineElementConstructor: made stands for what its construct makes.
pub record Constructor (E : Type 0) : Type 0 where
  pub class_name : ℕ
  pub made : E

-- constructors: m_elementConstructors, where `none` is the null pointer. ids: m_nameIdMapping.
pub record Factory (E : Type 0) : Type 0 where
  pub constructors : List (Option (Constructor E))
  pub ids : Table ℕ

abbrev pub new_factory : {E : Type 0} → Factory E
new_factory = record { constructors = []; ids = [] }

-- What a call answers: a value, -1 or the null pointer (refused), or a failed assertion of a list of
-- Qt or a call of a null pointer (fails).
pub data Answer (A : Type 0) : Type 0 where
  answer : A → Answer A
  refused fails : Answer A

pub data Call (E : Type 0) : Type 0 where
  register : Constructor E → Call E
  unregister : ℕ → Call E

module _ {E : Type 0} where
  -- registerElement
  unfoldable pub register_element : Constructor E → Factory E → ℕ × Factory E
  unfolding insert
  register_element c f =
      let id = length f.constructors in
      if contains c.class_name (keys f.ids) then (0, f) else (
        id,
        record f {
          constructors = f.constructors ++ some c ∷ [];
          ids = insert c.class_name id f.ids;
        },
      )

  -- unregisterElement; on an id out of range the code fails an assertion.
  unfoldable pub unregister_element : ℕ → Factory E → Factory E
  unfolding lookup
  unregister_element name f = elim (lookup name f.ids) [
    | none ↦ f
    | some id ↦ record f { constructors = set f.constructors id none }
  ]

  abbrev pub id_of : ℕ → Option (Option (Constructor E)) → Answer ℕ
  id_of id none = fails
  id_of id (some none) = refused
  id_of id (some (some c)) = answer id

  -- elementId
  unfoldable pub element_id : ℕ → Factory E → Answer ℕ
  unfolding lookup
  element_id name f = elim (lookup name f.ids) [
    | none ↦ refused
    | some id ↦ id_of id (get_elem? f.constructors id)
  ]

  abbrev pub made_by : Option (Option (Constructor E)) → Answer E
  made_by none = fails
  made_by (some none) = refused
  made_by (some (some c)) = answer c.made

  -- construct(id)
  unfoldable pub construct : Option ℕ → Factory E → Answer E
  construct none f = refused
  construct (some id) f =
      if ltb (length f.constructors) id then refused else made_by (get_elem? f.constructors id)

  -- construct(name)
  unfoldable pub construct_named : ℕ → Factory E → Answer E
  unfolding lookup
  construct_named name f = elim (lookup name f.ids) [
    | none ↦ refused
    | some id ↦ elim (get_elem? f.constructors id) [
      | none ↦ fails
      | some none ↦ fails
      | some (some c) ↦ answer c.made
    ]
  ]

  -- How PipelineLoader::parseElements uses the factory: elementId, and construct of the id.
  unfoldable pub make : ℕ → Factory E → Answer E
  unfolding element_id construct
  make name f = elim (element_id name f) [
    | answer id ↦ construct (some id) f
    | refused ↦ refused
    | fails ↦ fails
  ]

  unfoldable pub call : Call E → Factory E → Factory E
  unfolding register_element unregister_element
  call (register c) f = (register_element c f).1
  call (unregister name) f = unregister_element name f

  unfoldable pub run : List (Call E) → Factory E → Factory E
  unfolding call
  run [] f = f
  run (c ∷ cs) f = run cs (call c f)
