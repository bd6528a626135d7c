-- ===== src/Wiring/Removal/Clears.antt =====
-- src/plvcore/Pipeline.cpp (removeConnectionsForElement) leaves no connection of the element.
use parlevision.Base.{
  ℕ, ◌≡◌, ◌≤◌, refl, sym, ap, ◌∙◌, Bool, true, false, not, ◌&&◌, List, [], ◌∷◌, none, some, ◌==◌,
  contains, occurrences, absent_of_occurrences, arith, Bool-cases, Option-cases, inl, inr,
}
use parlevision.Store.{update}
use parlevision.Wiring.{disconnect}
use parlevision.Wiring.Links.{IsWired}
use parlevision.Wiring.Cut.{disconnect-IsWired, disconnect-pins}
use parlevision.Wiring.Removal.{
  Wires, thread_unsafe_disconnect, clear_inputs, disconnect_each, clear_outputs,
  remove_connections_for_element,
}

-- A connection that is taken out of a list that has it once.
without :
    (b : Bool) (c : ℕ) (cs : List ℕ) (d : ℕ)
    → contains c cs ≡ false
    → b ≡ (contains d (c ∷ cs) && not (c == d))
    → b ≡ contains d cs
without b c cs d h e = elim (Bool-cases (c == d)) [
  | inl y ↦
      let same : c ≡ d = ground (arith, y) in ground (arith, e, y, h, ap (λ n. contains n cs) same)
  | inr z ↦ ground (arith, e, z)
]

module _ {V : Type 0} where
  -- The pointers agree, and the known connections are those of the input pins.
  pub record IsKept (w : Wires V) : Type 0 where
    pub wired : IsWired w.store
    pub all_known : (i c : ℕ) → (w.store.inputs i).connection ≡ some c → w.known c ≡ true
    pub all_connected :
        (c : ℕ) → w.known c ≡ true → (i : ℕ) × ((w.store.inputs i).connection ≡ some c)

  -- No pin has got a connection.
  pub record Fewer (w u : Wires V) : Type 0 where
    pub inputs :
        (i c : ℕ) → (u.store.inputs i).connection ≡ some c → (w.store.inputs i).connection ≡ some c
    pub outputs :
        (o d : ℕ)
        → contains d (u.store.outputs o).connections ≡ true
        → contains d (w.store.outputs o).connections ≡ true

  Fewer-trans : (w u v : Wires V) → Fewer w u → Fewer u v → Fewer w v
  Fewer-trans w u v f g = record {
    inputs = λ i c e. f.inputs i c (g.inputs i c e);
    outputs = λ o d e. f.outputs o d (g.outputs o d e);
  }

  Fewer-refl : (w : Wires V) → Fewer w w
  Fewer-refl w = record { inputs = λ i c e. e; outputs = λ o d e. e }

  -- The connection of a pin is taken away.
  thread_unsafe_disconnect-IsKept :
      (c q : ℕ) (w : Wires V)
      → IsKept w
      → (w.store.inputs q).connection ≡ some c
      → (u : Wires V) × (thread_unsafe_disconnect c w ≡ some u)
        × IsKept u
        × Fewer w u
        × ((u.store.inputs q).connection ≡ none)
        × ((o d : ℕ)
            → contains d (u.store.outputs o).connections
              ≡ (contains d (w.store.outputs o).connections && not (c == d)))
  unfolding thread_unsafe_disconnect
  thread_unsafe_disconnect-IsKept c q w k e =
      let (went, wired, unused) = disconnect-IsWired w.store c q k.wired e in
      let (ins, outs) = disconnect-pins w.store c q k.wired e in
      let u : Wires V = record {
        known = update w.known c false;
        store = (disconnect c w.store).1;
      } in
      (
        u,
        ground (arith, k.all_known q c e, went),
        record {
          wired = wired;
          all_known =
              λ i d f. let ne = unused.no_input i in ground (arith, ins i, f, ne, k.all_known i d);
          all_connected = λ d f.
              let apart : (c == d) ≡ false = ground (arith, f) in
              let (i, g) = k.all_connected d (ground (arith, f)) in
              (i, ground (arith, ins i, g, e, apart));
        },
        record {
          inputs = λ i d f. ground (arith, ins i, f);
          outputs = λ o d f. ground (arith, outs o d, f);
        },
        ground (arith, ins q),
        outs,
      )

  stays_none :
      (q : ℕ) (w u : Wires V)
      → Fewer w u
      → (w.store.inputs q).connection ≡ none
      → (u.store.inputs q).connection ≡ none
  stays_none q w u f e = elim (Option-cases (u.store.inputs q).connection) [
    | inl h ↦ h
    | inr (c, h) ↦ absurd (ground (arith, f.inputs q c h, e))
  ]

  -- The first pin is clear before the others are cleared.
  all_clear :
      (q : ℕ) (pins : List ℕ) (w u : Wires V)
      → (w.store.inputs q).connection ≡ none
      → Fewer w u
      → ((x : ℕ) → contains x pins ≡ true → (u.store.inputs x).connection ≡ none)
      → (x : ℕ) → contains x (q ∷ pins) ≡ true
      → (u.store.inputs x).connection ≡ none
  all_clear q pins w u e f clear x m = elim (Bool-cases (q == x)) [
    | inl y ↦
        let same : q ≡ x = ground (arith, y) in
        ap (λ n. (u.store.inputs n).connection) (sym same) ∙ stays_none q w u f e
    | inr z ↦ clear x (ground (arith, m, z))
  ]

  clear_inputs-IsKept :
      (pins : List ℕ) (w : Wires V)
      → IsKept w
      → (u : Wires V) × (clear_inputs pins w ≡ some u)
        × IsKept u
        × Fewer w u
        × ((q : ℕ) → contains q pins ≡ true → (u.store.inputs q).connection ≡ none)
  unfolding clear_inputs
  clear_inputs-IsKept [] w k = (w, refl, k, Fewer-refl w, λ q m. absurd (ground (arith, m)))
  clear_inputs-IsKept (q ∷ pins) w k = elim (Option-cases (w.store.inputs q).connection) [
    | inl e ↦
        let (u, went, kept, fewer, clear) = clear_inputs-IsKept pins w k in
        (u, ground (arith, e, went), kept, fewer, all_clear q pins w u e fewer clear)
    | inr (c, e) ↦
        let (v, first, kept_1, fewer_1, gone, outs) = thread_unsafe_disconnect-IsKept c q w k e in
        let (u, went, kept, fewer, clear) = clear_inputs-IsKept pins v kept_1 in
        (
          u,
          ground (arith, e, first, went),
          kept,
          Fewer-trans w v u fewer_1 fewer,
          all_clear q pins v u gone fewer clear,
        )
  ]

  -- Of the copied connections of an output pin, those that are not taken away yet are those that
  -- the pin still has.
  disconnect_each-IsKept :
      (o : ℕ) (cs : List ℕ) (w : Wires V)
      → IsKept w
      → ((d : ℕ) → contains d (w.store.outputs o).connections ≡ contains d cs)
      → ((d : ℕ) → occurrences d cs ≤ 1)
      → (u : Wires V) × (disconnect_each cs w ≡ some u)
        × IsKept u
        × Fewer w u
        × ((d : ℕ) → contains d (u.store.outputs o).connections ≡ false)
  unfolding disconnect_each
  disconnect_each-IsKept o [] w k same few = (w, refl, k, Fewer-refl w, same)
  disconnect_each-IsKept o (c ∷ cs) w k same few =
      let listed : contains c (w.store.outputs o).connections ≡ true = ground (arith, same c) in
      let (prod, i, cons, e) = k.wired.output_wired o c listed in
      let (v, first, kept_1, fewer_1, gone, outs) = thread_unsafe_disconnect-IsKept c i w k e in
      let absent : contains c cs ≡ false = absent_of_occurrences c cs (ground (arith, few c)) in
      let (u, went, kept, fewer, clear) =
        disconnect_each-IsKept o cs v kept_1
          (λ d.
            without (contains d (v.store.outputs o).connections) c cs d absent
              (outs o d ∙ ap (λ b. b && not (c == d)) (same d)))
          (λ d. ground (arith, few d)) in
      (u, ground (arith, first, went), kept, Fewer-trans w v u fewer_1 fewer, clear)

  clear_outputs-IsKept :
      (pins : List ℕ) (w : Wires V)
      → IsKept w
      → (u : Wires V) × (clear_outputs pins w ≡ some u)
        × IsKept u
        × Fewer w u
        × ((o : ℕ)
            → contains o pins ≡ true
            → (d : ℕ) → contains d (u.store.outputs o).connections ≡ false)
  unfolding clear_outputs
  clear_outputs-IsKept [] w k = (w, refl, k, Fewer-refl w, λ o m. absurd (ground (arith, m)))
  clear_outputs-IsKept (p ∷ pins) w k =
      let (v, first, kept_1, fewer_1, none_left) =
        disconnect_each-IsKept p (w.store.outputs p).connections w k (λ d. refl) (k.wired.once p) in
      let (u, went, kept, fewer, clear) = clear_outputs-IsKept pins v kept_1 in
      (
        u,
        ground (arith, first, went),
        kept,
        Fewer-trans w v u fewer_1 fewer,
        λ o m d. elim (Bool-cases (p == o)) [
          | inl y ↦
              let same : p ≡ o = ground (arith, y) in
              ap (λ n. contains d (u.store.outputs n).connections) (sym same)
              ∙ stays_out p d v u fewer (none_left d)
          | inr z ↦ clear o (ground (arith, m, z)) d
        ],
      )
    where
      stays_out :
          (p d : ℕ) (v u : Wires V)
          → Fewer v u
          → contains d (v.store.outputs p).connections ≡ false
          → contains d (u.store.outputs p).connections ≡ false
      stays_out p d v u f e = elim (Bool-cases (contains d (u.store.outputs p).connections)) [
        | inl h ↦ absurd (ground (arith, f.outputs p d h, e))
        | inr h ↦ h
      ]

  -- removeConnectionsForElement, when the pointers between pins and connections agree and the
  -- connections in the map are exactly those of the input pins: no assertion fails, no input pin and no
  -- output pin of the element is connected afterwards, no pin has got a connection that it did not
  -- have, and the pointers and the map agree as before.
  pub remove_connections_for_element-IsKept :
      (inputs outputs : List ℕ) (w : Wires V)
      → IsKept w
      → (u : Wires V) × (remove_connections_for_element inputs outputs w ≡ some u)
        × IsKept u
        × Fewer w u
        × ((q : ℕ) → contains q inputs ≡ true → (u.store.inputs q).connection ≡ none)
        × ((o : ℕ)
            → contains o outputs ≡ true
            → (d : ℕ) → contains d (u.store.outputs o).connections ≡ false)
  unfolding remove_connections_for_element
  remove_connections_for_element-IsKept inputs outputs w k =
      let (v, first, kept_1, fewer_1, clear_in) = clear_inputs-IsKept inputs w k in
      let (u, went, kept, fewer, clear_out) = clear_outputs-IsKept outputs v kept_1 in
      (
        u,
        ground (arith, first, went),
        kept,
        Fewer-trans w v u fewer_1 fewer,
        (λ q m. stays_none q v u fewer (clear_in q m)),
        clear_out,
      )
