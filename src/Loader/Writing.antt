-- ===== src/Loader/Writing.antt =====
-- src/plvcore/PipelineLoader.cpp (serialize), up to the text of the document.
use parlevision.Base.{ℕ, List, [], ◌∷◌, Option, none, some}
use parlevision.Base.Table.{Table, lookup, values}
use parlevision.Enum.{get_selected_item_name}
use parlevision.Loader.{
  Value, bool_value, enum_value, custom_value, qt_value, Qt, Element, Connection, Pipeline,
}
use parlevision.Loader.Document.{
  Node, text_node, element, Nodes, end, node, pipeline_tag, elements_tag, element_tag, id_attribute,
  name_attribute, properties_tag, scene_x, scene_y, connections_tag, connection_tag, sink_tag,
  source_tag, pin_id_tag, processor_id_tag,
}

-- An element with a text in it.
abbrev pub text_element : ℕ → ℕ → Node
text_element tag text = element tag [] (node (text_node text) end)

module _ (qt : Qt) where
  -- propertyValue; `none` is the exception of getSelectedItemName.
  abbrev pub property_text : Value → Option ℕ
  property_text (bool_value b) = some (qt.bool_to_text b)
  property_text (enum_value e) = get_selected_item_name e
  property_text (custom_value c) = some 0
  property_text (qt_value t v) = some (qt.to_text t v)

  -- The dynamic properties that are written.
  abbrev pub scene_nodes : Table ℕ → Nodes
  scene_nodes dynamic = elim (lookup scene_x dynamic) [
    | none ↦ end
    | some x ↦ elim (lookup scene_y dynamic) [
      | none ↦ end
      | some y ↦ node (text_element scene_x x) (node (text_element scene_y y) end)
    ]
  ]

  -- The loop over the static properties, in front of some nodes.
  unfoldable pub property_nodes : Table Value → Nodes → Option Nodes
  property_nodes [] rest = some rest
  property_nodes ((name, v) ∷ properties) rest = elim (property_text v) [
    | none ↦ none
    | some text ↦ elim (property_nodes properties rest) [
      | none ↦ none
      | some ns ↦ some (node (text_element name text) ns)
    ]
  ]

  abbrev pub attributes_of : ℕ → Element → Table ℕ
  attributes_of id e = (id_attribute, qt.number id) ∷ (name_attribute, e.class_name) ∷ []

  unfoldable pub element_node : ℕ → Element → Option Node
  unfolding property_nodes
  element_node id e = elim (property_nodes e.properties (scene_nodes e.dynamic)) [
    | none ↦ none
    | some ns ↦
        some (element element_tag (attributes_of id e) (node (element properties_tag [] ns) end))
  ]

  -- The loop over the elements.
  unfoldable pub element_nodes : Table Element → Option Nodes
  unfolding element_node
  element_nodes [] = some end
  element_nodes ((id, e) ∷ elements) = elim (element_node id e) [
    | none ↦ none
    | some n ↦ elim (element_nodes elements) [ none ↦ none | some ns ↦ some (node n ns) ]
  ]

  -- The nodes "sink" and "source" of a connection.
  abbrev pub end_node : ℕ → (pin owner : ℕ) → Node
  end_node tag pin owner = element tag [] (
      node (text_element pin_id_tag (qt.number pin))
        (node (text_element processor_id_tag (qt.number owner)) end))

  unfoldable pub connection_node : Connection → Node
  connection_node c = element connection_tag [] (
      node (end_node sink_tag c.sink_pin c.sink)
        (node (end_node source_tag c.source_pin c.source) end))

  -- The loop over the connections.
  unfoldable pub connection_nodes : List Connection → Nodes
  unfolding connection_node
  connection_nodes [] = end
  connection_nodes (c ∷ cs) = node (connection_node c) (connection_nodes cs)

  -- PipelineLoader::serialize, as far as the document; `none` is an exception.
  unfoldable pub serialize : Pipeline → Option Nodes
  unfolding element_nodes connection_nodes
  serialize p = elim (element_nodes p.elements) [
    | none ↦ none
    | some ns ↦ some (
        node
          (element pipeline_tag [] (
            node (element elements_tag [] ns)
              (node (element connections_tag [] (connection_nodes (values p.connections))) end)))
          end)
  ]
