-- ===== src/Graph/Decides.antt =====
-- The ordering of a whole pipeline: it is found exactly if no element takes data from itself.
use parlevision.Base.{
  ℕ, suc, ◌<◌, ◌≡◌, refl, inl, inr, true, ◌&&◌, List, [], ◌∷◌, arith, ◌==◌, contains, Subset,
  Bool-cases, length, ◌↔◌, ◌≢◌, List-cases, ◌∙◌,
}
use parlevision.Graph.Paths.{sources, Upstream, IsLinked}
use parlevision.Graph.Topological.{IsTopological, no_cycle, source_before}
use parlevision.Graph.Visits.{Finished-refl, Result, Result-after, IsEntry, visit-Result, unentered}
use parlevision.Graph.{
  Graph, is_end_node, Search, Visit, done, cycle, out_of_fuel, proceed, visit, end_nodes,
  visit_nodes, generate_graph_ordering, Ordered, sorted, cyclic, assert_failed, no_fuel, outcome,
}

-- The order in which a QSet is iterated over meets the items of the set, and no others.
abbrev pub IsIteration : (List ℕ → List ℕ) → Type 0
IsIteration iterate = (xs : List ℕ) (a : ℕ) → contains a (iterate xs) ≡ contains a xs

contains-end_nodes :
    (g : Graph) (xs : List ℕ) (a : ℕ)
    → contains a (end_nodes g xs) ≡ (contains a xs && is_end_node (g.node a))
unfolding end_nodes
contains-end_nodes g [] a = refl
contains-end_nodes g (x ∷ xs) a = elim (Bool-cases (x == a)) [
  | inl e ↦ let q : x ≡ a = ground arith in rw q (ground (arith, contains-end_nodes g xs a))
  | inr e ↦ ground (arith, contains-end_nodes g xs a)
]

is_end_node_of_source :
    (g : Graph) (c a : ℕ) → contains a (sources g c) ≡ true → is_end_node (g.node c) ≡ true
unfolding is_end_node
is_end_node_of_source g c a m = ground arith

unentered-nil : (xs : List ℕ) → unentered [] xs ≡ length xs
unentered-nil [] = refl
unentered-nil (x ∷ xs) = omega (arith, unentered-nil xs)

visit_nodes-Result :
    (g : Graph) (ns : List ℕ) (s : Search)
    → IsLinked g
    → Subset ns g.children
    → s.visited ≡ []
    → IsTopological g [] s.ordering
    → Result g s ns (visit_nodes (visit g (suc (length g.children))) ns s)
unfolding visit_nodes
visit_nodes-Result g [] s linked sub e t = (Finished-refl g s t, λ a m. cc)
visit_nodes-Result g (n ∷ ns) s linked sub e t =
    next (visit g fuel n s) (visit-Result g fuel n s linked entry enough)
      λ u k p. visit_nodes-Result g ns u linked (λ a h. sub a (ground arith)) k p
  where
    fuel : ℕ
    fuel = suc (length g.children)

    entry : IsEntry g n s
    entry = record {
      child = sub n (ground arith);
      topological = t;
      waiting = λ v m. let none_entered = rw e at m in cc;
    }

    enough : unentered s.visited g.children < fuel
    enough = rw e (omega (arith, unentered-nil g.children))

    next :
        (r : Visit)
        → Result g s (n ∷ []) r
        → ((u : Search)
            → u.visited ≡ []
            → IsTopological g [] u.ordering
            → Result g u ns (visit_nodes (visit g fuel) ns u))
        → Result g s (n ∷ ns) (proceed r (visit_nodes (visit g fuel) ns))
    next (done u) r k =
        Result-after g s u n ns (visit_nodes (visit g fuel) ns u) r.0 (r.1 n (ground arith))
          (k u (r.0.restored ∙ e) r.0.topological)
    next (cycle u) r k = r
    next out_of_fuel r k = r

module _ (iterate : List ℕ → List ℕ) (g : Graph) where
  -- Either an ordering with all the children, or an element that takes data from itself.
  abbrev Verdict : Ordered → Type 0
  Verdict (sorted o) = IsTopological g [] o × Subset (end_nodes g g.children) o
  Verdict cyclic = (a : ℕ) × (contains a g.children ≡ true) × Upstream g a a
  Verdict assert_failed = ⊥
  Verdict no_fuel = ⊥

  some_end_node : IsLinked g → (c : ℕ) → contains c g.children ≡ true → end_nodes g g.children ≢ []
  some_end_node linked c m e = elim (Bool-cases (is_end_node (g.node c))) [
    | inl end ↦ ground (arith, contains-end_nodes g g.children c)
    | inr inner ↦
        let (d, child, from) = linked.fed c m inner in
        ground (arith, contains-end_nodes g g.children d, is_end_node_of_source g d c from)
  ]

  abbrev blank : Search
  blank = record { ordering = []; visited = [] }

  generate_lem :
      {c n : ℕ} {cs ns : List ℕ}
      → g.children ≡ c ∷ cs
      → end_nodes g g.children ≡ n ∷ ns
      → generate_graph_ordering iterate g
        ≡ outcome (
            visit_nodes
              (visit g (suc (length g.children)))
              (iterate (end_nodes g g.children))
              blank)
  unfolding generate_graph_ordering
  generate_lem e f = ground arith

  Verdict-of_Result :
      (ns : List ℕ) (r : Visit)
      → Subset (end_nodes g g.children) ns
      → Result g blank ns r
      → Verdict (outcome r)
  Verdict-of_Result ns (done t) sub r = (r.0.topological, λ a m. r.1 a (sub a m))
  Verdict-of_Result ns (cycle t) sub r = r
  Verdict-of_Result ns out_of_fuel sub r = r

  verdict :
      IsIteration iterate
      → IsLinked g
      → g.children ≢ []
      → Verdict (generate_graph_ordering iterate g)
  verdict items linked h = elim (List-cases g.children) [
    | inl empty ↦ absurd (h empty)
    | inr (c, cs, e) ↦ elim (List-cases (end_nodes g g.children)) [
      | inl nothing ↦ absurd (some_end_node linked c (rw e (ground arith)) nothing)
      | inr (n, ns, found) ↦ rw (generate_lem e found) (
          Verdict-of_Result (iterate (end_nodes g g.children)) _ (λ a m. items _ a ∙ m)
            (visit_nodes-Result g _ blank linked
              (λ a m.
                ground (arith, items (end_nodes g g.children) a, contains-end_nodes g g.children a))
              refl tt))
    ]
  ]

  IsTopological-child :
      (before xs : List ℕ) (a : ℕ)
      → IsTopological g before xs
      → contains a xs ≡ true
      → contains a g.children ≡ true
  IsTopological-child before [] a t m = absurd (ground arith)
  IsTopological-child before (x ∷ xs) a t m = elim (Bool-cases (x == a)) [
    | inl e ↦ let q : a ≡ x = ground arith in rw q t.1
    | inr e ↦ IsTopological-child (x ∷ before) xs a t.3 (ground arith)
  ]

  -- What stands in front of no end node feeds one.
  covers :
      (o : List ℕ)
      → IsLinked g
      → IsTopological g [] o
      → Subset (end_nodes g g.children) o
      → Subset g.children o
  covers o linked t ends a m = elim (Bool-cases (is_end_node (g.node a))) [
    | inl end ↦ ends a (ground (arith, contains-end_nodes g g.children a))
    | inr inner ↦
        let (d, child, from) = linked.fed a m inner in
        let last : contains d o ≡ true =
          ends d
            (ground (arith, contains-end_nodes g g.children d, is_end_node_of_source g d a from)) in
        (source_before g o d a t last from).0
  ]

-- For a pipeline of connected elements in which no element takes data from itself, through any
-- number of connections, the search succeeds, whatever the order in which the set of end nodes is
-- iterated over: each child of the pipeline stands in the result once, nothing else does, and
-- behind everything that it takes data from.
pub generate_graph_ordering-IsTopological :
    (iterate : List ℕ → List ℕ) (g : Graph)
    → IsIteration iterate
    → IsLinked g
    → g.children ≢ []
    → ((a : ℕ) → contains a g.children ≡ true → ¬ Upstream g a a)
    → (o : List ℕ) × (generate_graph_ordering iterate g ≡ sorted o)
      × IsTopological g [] o
      × ((a : ℕ) → contains a o ≡ contains a g.children)
generate_graph_ordering-IsTopological iterate g items linked h acyclic =
    go (generate_graph_ordering iterate g) (verdict iterate g items linked h) refl
  where
    go :
        (r : Ordered)
        → Verdict iterate g r
        → generate_graph_ordering iterate g ≡ r
        → (o : List ℕ) × (generate_graph_ordering iterate g ≡ sorted o)
          × IsTopological g [] o
          × ((a : ℕ) → contains a o ≡ contains a g.children)
    go (sorted o) v e = (
      o,
      e,
      v.0,
      λ a.
          grind
            (arith, IsTopological-child iterate g [] o a v.0, covers iterate g o linked v.0 v.1 a),
    )
    go cyclic v e = absurd (acyclic v.0 v.1 v.2)
    go assert_failed v e = absurd v
    go no_fuel v e = absurd v

-- For a pipeline of connected elements the search reports a cycle exactly if some child takes data
-- from itself, through any number of connections.
pub generate_graph_ordering-cyclic :
    (iterate : List ℕ → List ℕ) (g : Graph)
    → IsIteration iterate
    → IsLinked g
    → g.children ≢ []
    → (generate_graph_ordering iterate g ≡ cyclic)
      ↔ ((a : ℕ) × (contains a g.children ≡ true) × Upstream g a a)
generate_graph_ordering-cyclic iterate g items linked h =
    go (generate_graph_ordering iterate g) (verdict iterate g items linked h)
  where
    go :
        (r : Ordered)
        → Verdict iterate g r
        → (r ≡ cyclic) ↔ ((a : ℕ) × (contains a g.children ≡ true) × Upstream g a a)
    go (sorted o) v = (
      λ e. cc,
      λ (a, m, p). absurd (no_cycle g o a v.0 (covers iterate g o linked v.0 v.1 a m) p),
    )
    go cyclic v = (λ e. v, λ w. refl)
    go assert_failed v = absurd v
    go no_fuel v = absurd v
