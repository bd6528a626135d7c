-- ===== src/Graph/Examples.antt =====
-- A camera (0) feeds a filter (1) and a tracker (2), which also takes the filter's output; and a
-- pipeline in which two processors feed each other.
use parlevision.Base.{
  ℕ, zero, suc, ◌≡◌, refl, true, false, List, [], ◌∷◌, arith, contains, Option, none, some, ◌↔◌,
}
use parlevision.Graph.Paths.{sources, Upstream, IsLinked}
use parlevision.Graph.Topological.{IsTopological, no_cycle}
use parlevision.Graph.Decides.{
  IsIteration, generate_graph_ordering-IsTopological, generate_graph_ordering-cyclic,
}
use parlevision.Graph.{
  Graph, Node, producer, processor, generate_graph_ordering, is_end_node, sorted, cyclic,
}

abbrev camera : Node
camera = record { kind = producer; inputs = []; outputs = true ∷ [] }

abbrev reader : List (Option ℕ) → Node
reader inputs = record { kind = processor; inputs = inputs; outputs = true ∷ [] }

abbrev tracking_node : ℕ → Node
tracking_node zero = camera
tracking_node (suc zero) = reader (some 0 ∷ [])
tracking_node (suc (suc n)) = reader (none ∷ some 1 ∷ some 0 ∷ [])

abbrev tracking : Graph
tracking = record { children = 0 ∷ 1 ∷ 2 ∷ []; node = tracking_node }

abbrev looping_node : ℕ → Node
looping_node zero = reader (some 1 ∷ [])
looping_node (suc n) = reader (some 0 ∷ [])

abbrev looping : Graph
looping = record { children = 0 ∷ 1 ∷ []; node = looping_node }

generate_graph_ordering_test : generate_graph_ordering (λ xs. xs) tracking ≡ sorted (0 ∷ 1 ∷ 2 ∷ [])
unfolding generate_graph_ordering
generate_graph_ordering_test = refl

looping_test : generate_graph_ordering (λ xs. xs) looping ≡ cyclic
unfolding generate_graph_ordering
looping_test = refl

identity-IsIteration : IsIteration (λ xs. xs)
identity-IsIteration xs a = refl

closed_tracking :
    (a b : ℕ)
    → contains a tracking.children ≡ true
    → contains b (sources tracking a) ≡ true
    → contains b tracking.children ≡ true
closed_tracking zero b m h = cc
closed_tracking (suc zero) b m h = ground arith
closed_tracking (suc (suc n)) b m h = ground arith

tracking-IsLinked : IsLinked tracking
unfolding is_end_node
tracking-IsLinked = record { closed = closed_tracking; fed = feeds }
  where
    feeds :
        (a : ℕ)
        → contains a tracking.children ≡ true
        → is_end_node (tracking.node a) ≡ false
        → (c : ℕ) × (contains c tracking.children ≡ true) × (contains a (sources tracking c) ≡ true)
    feeds zero m h = (1, refl, refl)
    feeds (suc zero) m h = (2, refl, refl)
    feeds (suc (suc n)) m h = cc

tracking-IsTopological : IsTopological tracking [] (0 ∷ 1 ∷ 2 ∷ [])
tracking-IsTopological = (
  refl,
  refl,
  λ a m. cc,
  (refl, refl, λ a m. ground arith, (refl, refl, λ a m. ground arith, tt)),
)

generate_graph_ordering-IsTopological_example :
    (o : List ℕ) × (generate_graph_ordering (λ xs. xs) tracking ≡ sorted o)
    × IsTopological tracking [] o
    × ((a : ℕ) → contains a o ≡ contains a tracking.children)
generate_graph_ordering-IsTopological_example =
    generate_graph_ordering-IsTopological (λ xs. xs) tracking identity-IsIteration tracking-IsLinked
      (λ e. cc) (λ a m. no_cycle tracking (0 ∷ 1 ∷ 2 ∷ []) a tracking-IsTopological m)

looping-IsLinked : IsLinked looping
unfolding is_end_node
looping-IsLinked = record { closed = inside; fed = feeds }
  where
    inside :
        (a b : ℕ)
        → contains a looping.children ≡ true
        → contains b (sources looping a) ≡ true
        → contains b looping.children ≡ true
    inside zero b m h = ground arith
    inside (suc n) b m h = ground arith

    feeds :
        (a : ℕ)
        → contains a looping.children ≡ true
        → is_end_node (looping.node a) ≡ false
        → (c : ℕ) × (contains c looping.children ≡ true) × (contains a (sources looping c) ≡ true)
    feeds zero m h = cc
    feeds (suc n) m h = cc

generate_graph_ordering-cyclic_example :
    (generate_graph_ordering (λ xs. xs) looping ≡ cyclic)
    ↔ ((a : ℕ) × (contains a looping.children ≡ true) × Upstream looping a a)
generate_graph_ordering-cyclic_example =
    generate_graph_ordering-cyclic (λ xs. xs) looping identity-IsIteration looping-IsLinked
      (λ e. cc)
