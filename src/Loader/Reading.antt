-- ===== src/Loader/Reading.antt =====
-- src/plvcore/PipelineLoader.cpp (deserialize, parseElements, parseConnections, convertData), from
-- the document on.
use parlevision.Base.{ℕ, Bool, ◌||◌, List, [], ◌∷◌, Option, none, some, ◌==◌}
use parlevision.Base.Table.{lookup, insert}
use parlevision.Enum.{set_selected}
use parlevision.Loader.{
  Value, bool_value, enum_value, custom_value, qt_value, Qt, Element, Pipeline, Fits,
}
use parlevision.Loader.Document.{
  Node, Nodes, Dom, element_tag, id_attribute, name_attribute, properties_tag, connection_tag,
  sink_tag, source_tag, pin_id_tag, processor_id_tag, true_text, one_text,
}
use parlevision.Loader.Adding.{Loaded, and_then, unknown_type, add_element, add_connection}

module _ (qt : Qt) where
  -- convertData for a type Bool
  abbrev pub text_to_bool : ℕ → Bool
  text_to_bool text = qt.is_same_ignoring_case text true_text || text == one_text

  -- The value that a property gets from a text, for the value that it has.
  unfoldable pub read_value : ℕ → Value → Value
  unfolding set_selected
  read_value text (bool_value b) = bool_value (text_to_bool text)
  read_value text (enum_value e) = enum_value (set_selected text e)
  read_value text (custom_value c) = custom_value c
  read_value text (qt_value t v) = qt_value t (qt.from_text t text)

  -- setProperty: a name that the class does not have becomes a dynamic property, with a string.
  unfoldable pub write_property : ℕ → ℕ → Element → Element
  unfolding read_value
  write_property name text e = elim (lookup name e.properties) [
    | none ↦ record e { dynamic = insert name text e.dynamic }
    | some v ↦ record e { properties = insert name (read_value text v) e.properties }
  ]

  module _ (dom : Dom) where
    -- The loop over the properties of an element.
    unfoldable pub read_properties : List Node → Element → Element
    unfolding write_property
    read_properties [] e = e
    read_properties (n ∷ ns) e =
        read_properties ns (write_property (dom.tag_name n) (dom.text (some n)) e)

    -- An id in a node of a connection; a missing node has no text, of which toInt is 0.
    abbrev pub id_in : ℕ → Option Node → Option ℕ
    id_in tag n = qt.to_int (dom.text (dom.first_child_element tag n))

    -- construct: Loader.constructed of a factory
    module _ (construct : ℕ → Option Element) where
      -- The body of the loop of parseElements.
      unfoldable pub read_element : Node → Pipeline → Loaded
      unfolding read_properties add_element
      read_element n p = elim (construct (dom.attribute name_attribute n)) [
        | none ↦ (some unknown_type, p)
        | some e ↦
            add_element (qt.to_int (dom.attribute id_attribute n))
              (read_properties (dom.child_nodes (dom.first_child_element properties_tag (some n)))
                e)
              p
      ]

      -- parseElements
      unfoldable pub read_elements : List Node → Pipeline → Loaded
      unfolding read_element
      read_elements [] p = (none, p)
      read_elements (n ∷ ns) p = and_then (read_element n p) (λ q. read_elements ns q)

    module _ (fits : Fits) where
      unfoldable pub read_connection : Node → Pipeline → Loaded
      unfolding add_connection
      read_connection n p =
          let sink = dom.first_child_element sink_tag (some n) in
          let source = dom.first_child_element source_tag (some n) in
          add_connection fits (id_in processor_id_tag source) (id_in pin_id_tag source)
            (id_in processor_id_tag sink) (id_in pin_id_tag sink) p

      -- parseConnections
      unfoldable pub read_connections : List Node → Pipeline → Loaded
      unfolding read_connection
      read_connections [] p = (none, p)
      read_connections (n ∷ ns) p = and_then (read_connection n p) (λ q. read_connections ns q)

    module _ (construct : ℕ → Option Element) (fits : Fits) where
      -- PipelineLoader::deserialize
      unfoldable pub deserialize : Nodes → Pipeline → Loaded
      unfolding read_elements read_connections
      deserialize document p =
          and_then (read_elements construct (dom.elements_by_tag_name element_tag document) p)
            (λ q. read_connections fits (dom.elements_by_tag_name connection_tag document) q)
