-- ===== src/Graph/Paths.antt =====
-- The edges of the pipeline graph, and what a graph of connected elements satisfies.
use parlevision.Base.{ℕ, ◌≡◌, true, false, List, [], ◌∷◌, Option, none, some, contains}
use parlevision.Graph.{Kind, Graph, producer, processor, is_end_node}

abbrev pub owners : List (Option ℕ) → List ℕ
owners [] = []
owners (none ∷ pins) = owners pins
owners (some n ∷ pins) = n ∷ owners pins

abbrev pub owners_of : Kind → List (Option ℕ) → List ℕ
owners_of producer pins = []
owners_of processor pins = owners pins

-- The elements that an element takes data from. A producer has no input pins.
abbrev pub sources : Graph → ℕ → List ℕ
sources g n = owners_of (g.node n).kind (g.node n).inputs

-- A path against the flow of the data, of at least one connection.
pub data Upstream (g : Graph) (a : ℕ) : ℕ → Type 0 where
  link : {b : ℕ} → contains b (sources g a) ≡ true → Upstream g a b
  extend : {b c : ℕ} → Upstream g a b → contains c (sources g b) ≡ true → Upstream g a c

-- Connections join children, and a producer with a connected output pin feeds a child.
pub record IsLinked (g : Graph) : Type 0 where
  pub closed :
      (a b : ℕ)
      → contains a g.children ≡ true
      → contains b (sources g a) ≡ true
      → contains b g.children ≡ true
  pub fed :
      (a : ℕ)
      → contains a g.children ≡ true
      → is_end_node (g.node a) ≡ false
      → (c : ℕ) × (contains c g.children ≡ true) × (contains a (sources g c) ≡ true)
