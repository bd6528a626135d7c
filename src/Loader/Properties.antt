-- ===== src/Loader/Properties.antt =====
-- The properties of an element in a file and back: src/plvcore/PipelineLoader.cpp (serialize,
-- parseElements, convertData).
use parlevision.Base.{
  ℕ, ◌≡◌, refl, ap, ◌∙◌, Bool, true, false, List, [], ◌∷◌, some, ◌==◌, ==_refl, All, contains,
  arith, Option-cases, inl, inr, if◌then◌else◌,
}
use parlevision.Base.Table.{Table, lookup, insert, keys}
use parlevision.Enum.{Enum}
use parlevision.Enum.Selection.{IsSelection, set_selected-IsSelection}
use parlevision.Loader.{Value, bool_value, enum_value, custom_value, qt_value, QtType, Qt, Element}
use parlevision.Loader.Document.{
  Node, text_node, Nodes, end, node, Dom, IsDom, list_of, element_tag, connection_tag, scene_x,
  scene_y, true_text, one_text,
}
use parlevision.Loader.Writing.{text_element, property_text, property_nodes, scene_nodes}
use parlevision.Loader.Reading.{read_value, write_property, read_properties}

-- What is documented of QString and QVariant: a number is read back, and a Bool is written as
-- "true" or "false".
pub record IsQt (qt : Qt) : Type 0 where
  pub number_read : (n : ℕ) → qt.to_int (qt.number n) ≡ some n
  pub true_written : qt.is_same_ignoring_case (qt.bool_to_text true) true_text ≡ true
  pub false_written : qt.is_same_ignoring_case (qt.bool_to_text false) true_text ≡ false
  pub false_apart : (qt.bool_to_text false == one_text) ≡ false

-- A saved value that comes back into a property with an old value of the same type: one of a type
-- of Qt if Qt reads what it writes of it, and one of another type of the program if it is the old
-- one.
pub data Survives (qt : Qt) : Value → Value → Type 0 where
  bool_survives : (a b : Bool) → Survives qt (bool_value a) (bool_value b)
  enum_survives : (a b : Enum) → IsSelection a b → Survives qt (enum_value a) (enum_value b)
  custom_survives : (c : ℕ) → Survives qt (custom_value c) (custom_value c)
  qt_survives :
      (t : QtType) (v w : ℕ)
      → qt.from_text t (qt.to_text t w) ≡ w
      → Survives qt (qt_value t v) (qt_value t w)

value-Survives :
    (qt : Qt) (q : IsQt qt) (old saved : Value)
    → Survives qt old saved
    → (t : ℕ) × (property_text qt saved ≡ some t) × (read_value qt t old ≡ saved)
unfolding read_value
value-Survives qt q old saved (bool_survives a true) =
    (qt.bool_to_text true, refl, rw q.true_written refl)
value-Survives qt q old saved (bool_survives a false) =
    (qt.bool_to_text false, refl, rw (q.false_written, q.false_apart) refl)
value-Survives qt q old saved (enum_survives a b s) =
    let (named, chosen) = set_selected-IsSelection a b s in (s.name, named, ap enum_value chosen)
value-Survives qt q old saved (custom_survives c) = (0, refl, refl)
value-Survives qt q old saved (qt_survives t v w h) = (qt.to_text t w, refl, ap (qt_value t) h)

-- An element with one more property in front.
abbrev with_property : ℕ → Value → Element → Element
with_property x v e = record e { properties = (x, v) ∷ e.properties }

write-first :
    (qt : Qt) (name text : ℕ) (v : Value) (e : Element)
    → write_property qt name text (with_property name v e)
      ≡ with_property name (read_value qt text v) e
unfolding write_property lookup insert
write-first qt name text v e =
    rw (write_property, ==_refl name)
      (ap
        (λ b. record e {
          properties =
              if b
              then (name, read_value qt text v) ∷ e.properties
              else (name, v) ∷ insert name (read_value qt text v) e.properties;
        })
        (==_refl name))

write-with_property :
    (qt : Qt) (x name text : ℕ) (v : Value) (e : Element)
    → (x == name) ≡ false
    → write_property qt name text (with_property x v e)
      ≡ with_property x v (write_property qt name text e)
unfolding write_property lookup insert
write-with_property qt x name text v e h = elim (Option-cases (lookup name e.properties)) [
  | inl a ↦ rw (write_property, h, a) refl
  | inr (w, a) ↦
      let rest = insert name (read_value qt text w) e.properties in
      rw (write_property, h, a)
        (ap (λ l. record e { properties = l })
          (ap (λ b. if b then (x, read_value qt text w) ∷ e.properties else (x, v) ∷ rest) h))
]

-- The dynamic properties of an element that has a place in the scene, or none.
pub data IsScene : Table ℕ → Type 0 where
  not_shown : IsScene []
  shown : (x y : ℕ) → IsScene ((scene_x, x) ∷ (scene_y, y) ∷ [])

abbrev pub scene_tags : List ℕ
scene_tags = scene_x ∷ scene_y ∷ []

abbrev pub found_tags : List ℕ
found_tags = element_tag ∷ connection_tag ∷ []

-- The static properties of a fresh element and of the saved one: the same names, all of them
-- different, and none that the code uses for itself.
pub data Restored (qt : Qt) : Table Value → Table Value → Type 0 where
  no_properties : Restored qt [] []
  property :
      (name : ℕ) (v w : Value) (old saved : Table Value)
      → Survives qt v w
      → contains name (keys saved) ≡ false
      → contains name scene_tags ≡ false
      → contains name found_tags ≡ false
      → Restored qt old saved
      → Restored qt ((name, v) ∷ old) ((name, w) ∷ saved)

module _ (qt : Qt) (dom : Dom) where
  read-with_property :
      (ns : List Node) (x : ℕ) (v : Value) (e : Element)
      → All (λ n. (x == dom.tag_name n) ≡ false) ns
      → read_properties qt dom ns (with_property x v e)
        ≡ with_property x v (read_properties qt dom ns e)
  unfolding read_properties
  read-with_property [] x v e avoids = refl
  read-with_property (n ∷ ns) x v e avoids =
      ap (read_properties qt dom ns)
        (write-with_property qt x (dom.tag_name n) (dom.text (some n)) v e avoids.0)
      ∙ read-with_property ns x v (write_property qt (dom.tag_name n) (dom.text (some n)) e)
          avoids.1

  -- What the nodes of the properties of an element are, and what they make of a fresh one.
  pub record IsWritten (e : Element) (old saved : Table Value) (dynamic : Table ℕ) (ns : Nodes)
      : Type 0 where
    pub nodes_are : property_nodes qt saved (scene_nodes qt dynamic) ≡ some ns
    pub restored :
        read_properties qt dom (list_of ns) (record e { properties = old; dynamic = [] })
        ≡ record e { properties = saved; dynamic = dynamic }
    pub avoided :
        (x : ℕ)
        → contains x (keys saved) ≡ false
        → contains x scene_tags ≡ false
        → All (λ n. (x == dom.tag_name n) ≡ false) (list_of ns)
    pub unfound :
        (x : ℕ)
        → contains x (keys saved) ≡ false
        → contains x scene_tags ≡ false
        → dom.elements_by_tag_name x ns ≡ []

  module _ (q : IsQt qt) (d : IsDom dom) where
    pub text_element-unfound :
        (x tag text : ℕ) (ns : Nodes)
        → (x == tag) ≡ false
        → dom.elements_by_tag_name x (node (text_element tag text) ns)
          ≡ dom.elements_by_tag_name x ns
    text_element-unfound x tag text ns h =
        let apart : (tag == x) ≡ false = ground (arith, h) in
        d.elements-element x tag [] (node (text_node text) end) ns
        ∙ rw (apart, d.elements-text x text end, d.elements-end x) refl

    tag_name-text_element : (tag text : ℕ) → dom.tag_name (text_element tag text) ≡ tag
    tag_name-text_element tag text = d.tag_is tag [] (node (text_node text) end)

    pub text-text_element : (tag text : ℕ) → dom.text (some (text_element tag text)) ≡ text
    text-text_element tag text = d.text_is tag text []

    scene-IsWritten :
        (e : Element) (dynamic : Table ℕ)
        → IsScene dynamic
        → IsWritten e [] [] dynamic (scene_nodes qt dynamic)
    unfolding property_nodes read_properties write_property insert lookup
    scene-IsWritten e dynamic not_shown = record {
      nodes_are = refl;
      restored = refl;
      avoided = λ x h k. tt;
      unfound = λ x h k. d.elements-end x;
    }
    scene-IsWritten e dynamic (shown x y) = record {
      nodes_are = refl;
      restored =
          rw
            (
              tag_name-text_element scene_x x,
              tag_name-text_element scene_y y,
              text-text_element scene_x x,
              text-text_element scene_y y,
            )
            refl;
      avoided = λ z h k. (
        ap (λ t. z == t) (tag_name-text_element scene_x x) ∙ ground (arith, k),
        (ap (λ t. z == t) (tag_name-text_element scene_y y) ∙ ground (arith, k), tt),
      );
      unfound = λ z h k.
          text_element-unfound z scene_x x (node (text_element scene_y y) end) (ground (arith, k))
          ∙ text_element-unfound z scene_y y end (ground (arith, k))
          ∙ d.elements-end z;
    }

    property-IsWritten :
        (e : Element) (name : ℕ) (v w : Value) (old saved : Table Value) (dynamic : Table ℕ)
        (ns : Nodes)
        → (survives : Survives qt v w) → contains name (keys saved) ≡ false
        → contains name scene_tags ≡ false
        → IsWritten e old saved dynamic ns
        → (text : ℕ) × IsWritten e
            ((name, v) ∷ old)
            ((name, w) ∷ saved)
            dynamic
            (node (text_element name text) ns)
    unfolding property_nodes read_properties write_property insert lookup
    property-IsWritten e name v w old saved dynamic ns survives fresh plain rest =
        let (text, written, read) = value-Survives qt q v w survives in
        let n = text_element name text in
        let ns_list = list_of ns in
        let fresh_one = record e { properties = old; dynamic = [] } in
        let before = with_property name v fresh_one in
        (
          text,
          record {
            nodes_are = rw (property_nodes, written, rest.nodes_are) refl;
            restored =
                ap
                  (λ t.
                    read_properties qt dom ns_list (write_property qt t (dom.text (some n)) before))
                  (tag_name-text_element name text)
                ∙ ap (λ t. read_properties qt dom ns_list (write_property qt name t before))
                    (text-text_element name text)
                ∙ ap (read_properties qt dom ns_list) (write-first qt name text v fresh_one)
                ∙ ap (λ u. read_properties qt dom ns_list (with_property name u fresh_one)) read
                ∙ read-with_property ns_list name w fresh_one (rest.avoided name fresh plain)
                ∙ ap (with_property name w) rest.restored;
            avoided = λ x h k. (
              ap (λ t. x == t) (tag_name-text_element name text) ∙ ground (arith, h),
              rest.avoided x (ground (arith, h)) k,
            );
            unfound = λ x h k.
                text_element-unfound x name text ns (ground (arith, h))
                ∙ rest.unfound x (ground (arith, h)) k;
          },
        )

    pub properties-IsWritten :
        (e : Element) (old saved : Table Value) (dynamic : Table ℕ)
        → Restored qt old saved
        → IsScene dynamic
        → (ns : Nodes) × IsWritten e old saved dynamic ns
    properties-IsWritten e old saved dynamic no_properties scene =
        (scene_nodes qt dynamic, scene-IsWritten e dynamic scene)
    properties-IsWritten e old saved dynamic
          (property name v w olds saveds s fresh plain unused rest) scene =
        let (ns, written) = properties-IsWritten e olds saveds dynamic rest scene in
        let (text, more) =
          property-IsWritten e name v w olds saveds dynamic ns s fresh plain written in
        (node (text_element name text) ns, more)

-- No property has a tag that elements and connections have.
pub Restored-found_tags :
    (qt : Qt) (old saved : Table Value)
    → Restored qt old saved
    → (t : ℕ) → contains t found_tags ≡ true
    → contains t (keys saved) ≡ false
Restored-found_tags qt old saved no_properties t h = refl
Restored-found_tags qt old saved (property name v w olds saveds s fresh plain unused rest) t h =
    let others = Restored-found_tags qt olds saveds rest t h in ground (arith, unused, h, others)
