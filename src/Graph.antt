-- ===== src/Graph.antt =====
-- The depth-first search that orders the elements of a pipeline and finds cycles:
-- src/plvcore/Pipeline.cpp (generateGraphOrdering), src/plvcore/DataConsumer.cpp and
-- src/plvcore/DataProducer.cpp (isEndNode, visit, visitAllIncomingConnections).
-- An element is named by a number, which stands for its address. A QHash or a QSet is a list in
-- the order in which it is iterated over.
pub mod Paths
pub mod Topological
pub mod Visits
pub mod Decides
mod Examples
use parlevision.Base.{
  ℕ, zero, suc, Bool, true, false, List, [], ◌∷◌, ◌++◌, Option, none, some, contains, length,
  erase_all, if◌then◌else◌,
}

-- What ref_ptr_dynamic_cast tells apart: a PipelineProducer or a PipelineProcessor.
pub data Kind : Type 0 where
  producer processor : Kind

-- inputs: for each input pin the owner of the output pin that it is connected to, if it is
-- connected. outputs: for each output pin whether it is connected.
pub record Node : Type 0 where
  pub kind : Kind
  pub inputs : List (Option ℕ)
  pub outputs : List Bool

-- children: the elements of m_children, by ascending id.
pub record Graph : Type 0 where
  pub children : List ℕ
  pub node : ℕ → Node

-- DataProducer::isEndNode
pub no_output_connected : List Bool → Bool
no_output_connected [] = true
no_output_connected (connected ∷ pins) = if connected then false else no_output_connected pins

-- isEndNode, by the class of the element: DataConsumer overrides the method of DataProducer.
pub is_end_node : Node → Bool
unfolding no_output_connected
is_end_node n = elim n.kind [ producer ↦ no_output_connected n.outputs | processor ↦ true ]

-- The two arguments that a visit changes.
pub record Search : Type 0 where
  pub ordering : List ℕ
  pub visited : List ℕ

-- `done` is the result true, `cycle` the result false.
pub data Visit : Type 0 where
  done cycle : Search → Visit
  out_of_fuel : Visit

-- Go on unless a visit failed.
abbrev pub proceed : Visit → (Search → Visit) → Visit
proceed (done s) k = k s
proceed (cycle s) k = cycle s
proceed out_of_fuel k = out_of_fuel

-- visitAllIncomingConnections, over the visit of a single element.
pub visit_all_incoming_connections : (ℕ → Search → Visit) → List (Option ℕ) → Search → Visit
visit_all_incoming_connections visit [] s = done s
visit_all_incoming_connections visit (none ∷ pins) s = visit_all_incoming_connections visit pins s
visit_all_incoming_connections visit (some owner ∷ pins) s =
    proceed (visit owner s) (visit_all_incoming_connections visit pins)

abbrev pub append_to_ordering : ℕ → Search → Search
append_to_ordering n s = record s { ordering = s.ordering ++ n ∷ [] }

-- DataProducer::visit
pub visit_producer : ℕ → Search → Visit
visit_producer n s =
    if contains n s.ordering
    then done s
    else if contains n s.visited
    then cycle (append_to_ordering n s)
    else done (append_to_ordering n s)

-- DataConsumer::visit
pub visit_consumer : (ℕ → Search → Visit) → List (Option ℕ) → ℕ → Search → Visit
unfolding visit_all_incoming_connections
visit_consumer visit inputs n s =
    if contains n s.ordering
    then done s
    else if contains n s.visited
    then cycle (append_to_ordering n s)
    else proceed
        (visit_all_incoming_connections visit inputs (record s { visited = n ∷ s.visited }))
        λ t. done (append_to_ordering n (record t { visited = erase_all n t.visited }))

-- The virtual call node->visit(ordering, visited). The fuel bounds the depth of the recursion.
pub visit : Graph → ℕ → ℕ → Search → Visit
unfolding visit_producer visit_consumer
visit g zero n s = out_of_fuel
visit g (suc fuel) n s = elim (g.node n).kind [
  | producer ↦ visit_producer n s
  | processor ↦ visit_consumer (visit g fuel) (g.node n).inputs n s
]

-- QSet::insert
abbrev pub insert_node : ℕ → List ℕ → List ℕ
insert_node n nodes = if contains n nodes then nodes else n ∷ nodes

-- The loop that collects endNodes. The cast to DataProducer succeeds for both kinds.
pub end_nodes : Graph → List ℕ → List ℕ
unfolding is_end_node
end_nodes g [] = []
end_nodes g (n ∷ rest) =
    let found = end_nodes g rest in if is_end_node (g.node n) then insert_node n found else found

pub data Ordered : Type 0 where
  sorted : List ℕ → Ordered
  cyclic assert_failed no_fuel : Ordered

abbrev pub outcome : Visit → Ordered
outcome (done s) = sorted s.ordering
outcome (cycle s) = cyclic
outcome out_of_fuel = no_fuel

-- The loop over endNodes, one visit after another with the same ordering and visited.
pub visit_nodes : (ℕ → Search → Visit) → List ℕ → Search → Visit
visit_nodes visit [] s = done s
visit_nodes visit (n ∷ rest) s = proceed (visit n s) (visit_nodes visit rest)

-- generateGraphOrdering on an empty ordering. `iterate` gives the order in which the foreach
-- meets the items of the QSet endNodes. No path is longer than the number of children.
pub generate_graph_ordering : (List ℕ → List ℕ) → Graph → Ordered
unfolding visit end_nodes visit_nodes
generate_graph_ordering iterate g = elim g.children [
  | [] ↦ assert_failed
  | _ ∷ _ ↦ elim (end_nodes g g.children) [
    | [] ↦ cyclic
    | n ∷ rest ↦ outcome (
        visit_nodes (visit g (suc (length g.children))) (iterate (n ∷ rest))
          (record { ordering = []; visited = [] }))
  ]
]
