-- ===== src/Loader/Document.antt =====
-- The documents of src/plvcore/PipelineLoader.cpp: trees as createElement, createTextNode,
-- setAttribute and appendChild of QDomDocument build them. What reads a tree, QDom of Qt, is a
-- parameter.
use parlevision.Base.{ℕ, ◌≡◌, List, [], ◌∷◌, ◌++◌, Option, none, some, ◌==◌, if◌then◌else◌}
use parlevision.Base.Table.{Table, lookup}

mutual
  pub data Node : Type 0 where
    text_node : ℕ → Node
    element : (tag : ℕ) → (attributes : Table ℕ) → Nodes → Node

  pub data Nodes : Type 0 where
    end : Nodes
    node : Node → Nodes → Nodes

-- The null node is `none`. elements_by_tag_name is about a whole document. attribute: the value of
-- the named item of the attributes.
pub record Dom : Type 0 where
  pub elements_by_tag_name : ℕ → Nodes → List Node
  pub first_child_element : ℕ → Option Node → Option Node
  pub child_nodes : Option Node → List Node
  pub attribute : ℕ → Node → ℕ
  pub tag_name : Node → ℕ
  pub text : Option Node → ℕ

abbrev pub or_empty : Option ℕ → ℕ
or_empty none = 0
or_empty (some s) = s

abbrev pub list_of : Nodes → List Node
list_of end = []
list_of (node n ns) = n ∷ list_of ns

abbrev pub first_named : ℕ → Nodes → Option Node
first_named t end = none
first_named t (node (text_node s) ns) = first_named t ns
first_named t (node (element u attributes children) ns) =
    let rest = first_named t ns in if u == t then some (element u attributes children) else rest

-- What is documented: elementsByTagName finds all elements with a tag, at any depth, an element
-- before those in it; firstChildElement the first one of the children; and so on.
pub record IsDom (dom : Dom) : Type 0 where
  pub elements-end : (t : ℕ) → dom.elements_by_tag_name t end ≡ []
  pub elements-text :
      (t s : ℕ) (ns : Nodes)
      → dom.elements_by_tag_name t (node (text_node s) ns) ≡ dom.elements_by_tag_name t ns
  pub elements-element :
      (t u : ℕ) (attributes : Table ℕ) (children ns : Nodes)
      → dom.elements_by_tag_name t (node (element u attributes children) ns)
        ≡ (if u == t then element u attributes children ∷ [] else [])
          ++ (dom.elements_by_tag_name t children ++ dom.elements_by_tag_name t ns)
  pub first_child :
      (t u : ℕ) (attributes : Table ℕ) (children : Nodes)
      → dom.first_child_element t (some (element u attributes children)) ≡ first_named t children
  pub children_listed :
      (u : ℕ) (attributes : Table ℕ) (children : Nodes)
      → dom.child_nodes (some (element u attributes children)) ≡ list_of children
  pub attribute_found :
      (k u : ℕ) (attributes : Table ℕ) (children : Nodes)
      → dom.attribute k (element u attributes children) ≡ or_empty (lookup k attributes)
  pub tag_is :
      (u : ℕ) (attributes : Table ℕ) (children : Nodes)
      → dom.tag_name (element u attributes children) ≡ u
  pub text_is :
      (u s : ℕ) (attributes : Table ℕ)
      → dom.text (some (element u attributes (node (text_node s) end))) ≡ s

-- The strings "pipeline", "elements", "element", "id", "name", "properties", "sceneCoordX",
-- "sceneCoordY", "connections", "connection", "sink", "source", "pinId", "processorId", "true" and
-- "1".
abbrev pub pipeline_tag : ℕ
pipeline_tag = 1

abbrev pub elements_tag : ℕ
elements_tag = 2

abbrev pub element_tag : ℕ
element_tag = 3

abbrev pub id_attribute : ℕ
id_attribute = 4

abbrev pub name_attribute : ℕ
name_attribute = 5

abbrev pub properties_tag : ℕ
properties_tag = 6

abbrev pub scene_x : ℕ
scene_x = 7

abbrev pub scene_y : ℕ
scene_y = 8

abbrev pub connections_tag : ℕ
connections_tag = 9

abbrev pub connection_tag : ℕ
connection_tag = 10

abbrev pub sink_tag : ℕ
sink_tag = 11

abbrev pub source_tag : ℕ
source_tag = 12

abbrev pub pin_id_tag : ℕ
pin_id_tag = 13

abbrev pub processor_id_tag : ℕ
processor_id_tag = 14

abbrev pub true_text : ℕ
true_text = 15

abbrev pub one_text : ℕ
one_text = 16
