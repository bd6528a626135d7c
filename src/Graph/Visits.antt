-- ===== src/Graph/Visits.antt =====
-- What a visit does to the ordering and to the set of visited elements.
use parlevision.Base.{
  ℕ, zero, suc, ◌<◌, ◌≤◌, ◌≡◌, refl, ◌⊎◌, inl, inr, true, false, List, [], ◌∷◌, ◌++◌, arith, ◌==◌,
  if◌then◌else◌, contains, Subset, Bool-cases, Option, none, some, erase_all, erase_all-absent,
  contains-append, ◌∙◌,
}
use parlevision.Graph.Paths.{sources, owners, Upstream, link, extend, IsLinked}
use parlevision.Graph.Topological.{IsTopological, IsTopological-concat}
use parlevision.Graph.{
  Graph, Kind, producer, processor, Search, Visit, done, cycle, out_of_fuel, proceed, visit,
  visit_producer, visit_consumer, visit_all_incoming_connections, append_to_ordering,
}

-- The children that no visit has entered, which bounds the depth of the recursion.
abbrev pub unentered : List ℕ → List ℕ → ℕ
unentered visited [] = 0
unentered visited (x ∷ xs) =
    let rest = unentered visited xs in if contains x visited then rest else suc rest

unentered-le : (n : ℕ) (visited xs : List ℕ) → unentered (n ∷ visited) xs ≤ unentered visited xs
unentered-le n visited [] = omega arith
unentered-le n visited (x ∷ xs) = ground (arith, unentered-le n visited xs)

pub unentered-lt :
    (n : ℕ) (visited xs : List ℕ)
    → contains n xs ≡ true
    → contains n visited ≡ false
    → unentered (n ∷ visited) xs < unentered visited xs
unentered-lt n visited [] m h = absurd (ground arith)
unentered-lt n visited (x ∷ xs) m h = elim (Bool-cases (x == n)) [
  | inl e ↦ let q : x ≡ n = ground arith in rw q (ground (arith, unentered-le n visited xs))
  | inr e ↦ ground (arith, unentered-lt n visited xs)
]

module _ (g : Graph) where
  -- The state that a visit leaves behind when it returns true.
  pub record Finished (s t : Search) : Type 0 where
    pub restored : t.visited ≡ s.visited
    pub topological : IsTopological g [] t.ordering
    pub grows : Subset s.ordering t.ordering
    pub kept : (a : ℕ) → contains a s.visited ≡ true → contains a t.ordering ≡ contains a s.ordering

  -- A visit that returns false has found a cycle.
  abbrev pub Result : Search → List ℕ → Visit → Type 0
  Result s ns (done t) = Finished s t × Subset ns t.ordering
  Result s ns (cycle t) = (a : ℕ) × (contains a g.children ≡ true) × Upstream g a a
  Result s ns out_of_fuel = ⊥

  -- The elements whose visit is not finished wait for the element to be visited.
  pub record IsEntry (n : ℕ) (s : Search) : Type 0 where
    pub child : contains n g.children ≡ true
    pub topological : IsTopological g [] s.ordering
    pub waiting :
        (v : ℕ) → contains v s.visited ≡ true → (contains v g.children ≡ true) × Upstream g v n

  pub Finished-refl : (s : Search) → IsTopological g [] s.ordering → Finished s s
  Finished-refl s t = record {
    restored = refl;
    topological = t;
    grows = λ a m. m;
    kept = λ a m. refl;
  }

  Finished-trans : (s t u : Search) → Finished s t → Finished t u → Finished s u
  Finished-trans s t u p q = record {
    restored = q.restored ∙ p.restored;
    topological = q.topological;
    grows = λ a m. q.grows a (p.grows a m);
    kept = λ a m. q.kept a (rw p.restored m) ∙ p.kept a m;
  }

  pub Result-after :
      (s u : Search) (m : ℕ) (ns : List ℕ) (w : Visit)
      → Finished s u
      → contains m u.ordering ≡ true
      → Result u ns w
      → Result s (m ∷ ns) w
  Result-after s u m ns (done t) p h r = (
    Finished-trans s u t p r.0,
    λ a q. elim (Bool-cases (m == a)) [
      | inl e ↦ let i : a ≡ m = ground arith in rw i (r.0.grows m h)
      | inr e ↦ r.1 a (ground arith)
    ],
  )
  Result-after s u m ns (cycle t) p h r = r
  Result-after s u m ns out_of_fuel p h r = r

  concat-Finished :
      (n : ℕ) (s : Search)
      → contains n g.children ≡ true
      → IsTopological g [] s.ordering
      → contains n s.ordering ≡ false
      → contains n s.visited ≡ false
      → Subset (sources g n) s.ordering
      → Finished s (append_to_ordering n s)
  concat-Finished n s child t fresh unvisited from = record {
    restored = refl;
    topological = IsTopological-concat g n [] s.ordering t fresh child from;
    grows = λ a m. ground (arith, contains-append a s.ordering (n ∷ []));
    kept = λ a m. ground (arith, contains-append a s.ordering (n ∷ []));
  }

  concat-Subset : (n : ℕ) (xs : List ℕ) → Subset (n ∷ []) (xs ++ n ∷ [])
  concat-Subset n xs a m = ground (arith, contains-append a xs (n ∷ []))

  visit_producer-Result :
      (n : ℕ) (s : Search)
      → (g.node n).kind ≡ producer
      → IsEntry n s
      → Result s (n ∷ []) (visit_producer n s)
  unfolding visit_producer
  visit_producer-Result n s e h = elim (Bool-cases (contains n s.ordering)) [
    | inl old ↦ rw old (Finished-refl s h.topological, λ a m. ground arith)
    | inr new ↦ elim (Bool-cases (contains n s.visited)) [
      | inl entered ↦ rw (new, entered) (n, h.child, (h.waiting n entered).1)
      | inr free ↦
          rw (new, free)
            (
              concat-Finished n s h.child h.topological new free (λ a m. ground arith),
              concat-Subset n s.ordering,
            )
    ]
  ]

  -- The loop over the input pins of the element `n`, which is in the set of visited elements.
  incoming-Result :
      (v : ℕ → Search → Visit) (n : ℕ) (visited : List ℕ)
      → ((m : ℕ) (s : Search) → s.visited ≡ visited → IsEntry m s → Result s (m ∷ []) (v m s))
      → ((a : ℕ)
          → contains a visited ≡ true
          → (contains a g.children ≡ true) × (Upstream g a n ⊎ (a ≡ n)))
      → (pins : List (Option ℕ)) (s : Search) → Subset (owners pins) (sources g n)
      → Subset (sources g n) g.children
      → s.visited ≡ visited
      → IsTopological g [] s.ordering
      → Result s (owners pins) (visit_all_incoming_connections v pins s)
  unfolding visit_all_incoming_connections
  incoming-Result v n visited ih stack [] s sub child e t = (Finished-refl s t, λ a m. cc)
  incoming-Result v n visited ih stack (none ∷ pins) s sub child e t =
      incoming-Result v n visited ih stack pins s sub child e t
  incoming-Result v n visited ih stack (some m ∷ pins) s sub child e t =
      next (v m s) (ih m s e entry)
        λ u k p. incoming-Result v n visited ih stack pins u (λ a h. sub a (ground arith)) child k p
    where
      from : contains m (sources g n) ≡ true
      from = sub m (ground arith)

      entry : IsEntry m s
      entry = record {
        child = child m from;
        topological = t;
        waiting = λ a h.
            let w = stack a (rw e at h) in
            (w.0, elim w.1 [ inl p ↦ extend p from | inr q ↦ rw q (link from) ]);
      }

      next :
          (r : Visit)
          → Result s (m ∷ []) r
          → ((u : Search)
              → u.visited ≡ visited
              → IsTopological g [] u.ordering
              → Result u (owners pins) (visit_all_incoming_connections v pins u))
          → Result s (m ∷ owners pins) (proceed r (visit_all_incoming_connections v pins))
      next (done u) r k =
          Result-after s u m (owners pins) (visit_all_incoming_connections v pins u) r.0
            (r.1 m (ground arith)) (k u (r.0.restored ∙ e) r.0.topological)
      next (cycle u) r k = r
      next out_of_fuel r k = r

  visit_consumer-Result :
      (v : ℕ → Search → Visit) (n : ℕ) (s : Search)
      → ((m : ℕ) (t : Search)
          → t.visited ≡ n ∷ s.visited
          → contains n s.visited ≡ false
          → IsEntry m t
          → Result t (m ∷ []) (v m t))
      → (g.node n).kind ≡ processor
      → IsLinked g
      → IsEntry n s
      → Result s (n ∷ []) (visit_consumer v (g.node n).inputs n s)
  unfolding visit_consumer
  visit_consumer-Result v n s ih e linked h = elim (Bool-cases (contains n s.ordering)) [
    | inl old ↦ rw old (Finished-refl s h.topological, λ a m. ground arith)
    | inr new ↦ elim (Bool-cases (contains n s.visited)) [
      | inl entered ↦ rw (new, entered) (n, h.child, (h.waiting n entered).1)
      | inr free ↦
          rw (new, free)
            (close free new
              (visit_all_incoming_connections v (g.node n).inputs
                (record s { visited = n ∷ s.visited }))
              (incoming-Result v n (n ∷ s.visited) (λ m t q. ih m t q free) stack (g.node n).inputs
                (record s { visited = n ∷ s.visited }) pins (λ a m. linked.closed n a h.child m)
                refl h.topological))
    ]
  ]
    where
      pins : Subset (owners (g.node n).inputs) (sources g n)
      pins = rw e (λ a m. m)

      stack :
          (a : ℕ)
          → contains a (n ∷ s.visited) ≡ true
          → (contains a g.children ≡ true) × (Upstream g a n ⊎ (a ≡ n))
      stack a m = elim (Bool-cases (n == a)) [
        | inl q ↦ let i : a ≡ n = ground arith in (rw i h.child, inr i)
        | inr q ↦ let w = h.waiting a (ground arith) in (w.0, inl w.1)
      ]

      close :
          contains n s.visited ≡ false
          → contains n s.ordering ≡ false
          → (r : Visit) → Result (record s { visited = n ∷ s.visited }) (owners (g.node n).inputs) r
          → Result s (n ∷ []) (
              proceed r
                λ t. done (append_to_ordering n (record t { visited = erase_all n t.visited })))
      close free new (cycle t) r = r
      close free new out_of_fuel r = r
      close free new (done t) r =
          let fresh = r.0.kept n (ground arith) ∙ new in
          (
            record {
              restored = rw (r.0.restored) (ground (arith, erase_all-absent n s.visited free));
              topological =
                  IsTopological-concat g n [] t.ordering r.0.topological fresh h.child
                    (λ a m. r.1 a (rw e at m));
              grows = λ a m.
                  let old = r.0.grows a m in ground (arith, contains-append a t.ordering (n ∷ []));
              kept = λ a m.
                  let same = r.0.kept a (ground arith) in
                  ground (arith, contains-append a t.ordering (n ∷ []));
            },
            concat-Subset n t.ordering,
          )

  -- With enough fuel a visit either finishes or finds a cycle.
  pub visit-Result :
      (fuel n : ℕ) (s : Search)
      → IsLinked g
      → IsEntry n s
      → unentered s.visited g.children < fuel
      → Result s (n ∷ []) (visit g fuel n s)
  unfolding visit
  visit-Result zero n s linked h f = absurd (omega arith)
  visit-Result (suc fuel) n s linked h f = by_kind (g.node n).kind refl λ m t e free entry.
      visit-Result fuel m t linked entry
        (rw e (omega (arith, unentered-lt n s.visited g.children h.child free)))
    where
      by_kind :
          (k : Kind)
          → (g.node n).kind ≡ k
          → ((m : ℕ) (t : Search)
              → t.visited ≡ n ∷ s.visited
              → contains n s.visited ≡ false
              → IsEntry m t
              → Result t (m ∷ []) (visit g fuel m t))
          → Result s (n ∷ []) (visit g (suc fuel) n s)
      by_kind producer e ih = rw (e, visit) (visit_producer-Result n s e h)
      by_kind processor e ih =
          rw (e, visit) (visit_consumer-Result (visit g fuel) n s ih e linked h)
