-- ===== src/Wiring/Links.antt =====
-- The pointers between pins and connections agree.
use parlevision.Base.{
  ℕ, ◌≡◌, ◌≤◌, refl, Bool, true, false, occurrences, occurrences-concat, occurrences-absent, ◌||◌,
  ◌&&◌, [], ◌∷◌, ◌++◌, Option, none, some, ◌==◌, if◌then◌else◌, arith, contains, contains-append,
  Bool-cases, inl, inr, ◌≢◌,
}
use parlevision.Store.{Store, PinConnection, update}
use parlevision.Store.Monad.{Exception}
use parlevision.Wiring.{is_dynamically_typed, new_connection}
use parlevision.Wiring.Objections.{objection}

module _ {V : Type 0} where
  -- An input pin that points to a connection is its consumer, and an output pin that lists a
  -- connection is its producer and lists it once; the other end of the connection agrees.
  pub record IsWired (s : Store V) : Type 0 where
    pub input_wired :
        (i c : ℕ)
        → (s.inputs i).connection ≡ some c
        → ((s.connections c).consumer ≡ some i)
          × (o : ℕ) × ((s.connections c).producer ≡ some o)
          × (contains c (s.outputs o).connections ≡ true)
    pub output_wired :
        (o c : ℕ)
        → contains c (s.outputs o).connections ≡ true
        → ((s.connections c).producer ≡ some o)
          × (i : ℕ) × ((s.connections c).consumer ≡ some i)
          × ((s.inputs i).connection ≡ some c)
    pub once : (o c : ℕ) → occurrences c (s.outputs o).connections ≤ 1

  -- The store after a successful construction, apart from the type of a dynamic pin.
  abbrev linked : (ℕ → Bool) → ℕ → ℕ → ℕ → Store V → Store V
  linked registered c out_pin in_pin s =
      let i = s.inputs in_pin in
      let o = s.outputs out_pin in
      record s {
        connections =
            update s.connections c
              (record { producer = some out_pin; consumer = some in_pin; queue = [] });
        outputs = update s.outputs out_pin (record o { connections = o.connections ++ c ∷ [] });
        inputs =
            if is_dynamically_typed i
            then update (update s.inputs in_pin (record i { type_id = o.type_id })) in_pin
                (record i { type_id = o.type_id; connection = some c })
            else update s.inputs in_pin (record i { connection = some c });
      }

  new_connection_lem :
      (registered : ℕ → Bool) (s : Store V) (c out_pin in_pin : ℕ)
      → objection registered (s.outputs out_pin) (s.inputs in_pin) ≡ none
      → (new_connection registered c out_pin in_pin s).1 ≡ linked registered c out_pin in_pin s
  unfolding new_connection
  new_connection_lem registered s c out_pin in_pin e = ground arith

  -- No pin refers to the address.
  pub record IsUnused (c : ℕ) (s : Store V) : Type 0 where
    pub no_input : (i : ℕ) → (s.inputs i).connection ≢ some c
    pub no_output : (o : ℕ) → contains c (s.outputs o).connections ≡ false

  module _ (registered : ℕ → Bool) (s : Store V) (c p q : ℕ) (w : IsWired s) (u : IsUnused c s)
      (free : (s.inputs q).connection ≡ none) where
    t : Store V
    t = linked registered c p q s

    input_of :
        (i : ℕ) → (t.inputs i).connection ≡ (if q == i then some c else (s.inputs i).connection)
    unfolding t
    input_of i = ground arith

    output_of :
        (o d : ℕ)
        → contains d (t.outputs o).connections
          ≡ (contains d (s.outputs o).connections || (p == o && c == d))
    unfolding t
    output_of o d = ground (arith, contains-append d (s.outputs o).connections (c ∷ []))

    once_of : (o d : ℕ) → occurrences d (t.outputs o).connections ≤ 1
    unfolding t
    once_of o d = ground (
      arith,
      occurrences-concat d c (s.outputs p).connections,
      occurrences-absent c (s.outputs p).connections (u.no_output p),
      w.once o d,
      w.once p d,
    )

    input_linked :
        (i d : ℕ)
        → (t.inputs i).connection ≡ some d
        → ((t.connections d).consumer ≡ some i)
          × (o : ℕ) × ((t.connections d).producer ≡ some o)
          × (contains d (t.outputs o).connections ≡ true)
    unfolding t
    input_linked i d e = elim (Bool-cases (q == i)) [
      | inl y ↦ (
        ground (arith, input_of i),
        p,
        ground (arith, input_of i),
        ground (arith, input_of i, output_of p d),
      )
      | inr n ↦
          let old : (s.inputs i).connection ≡ some d = ground (arith, input_of i) in
          let (cons, o, prod, listed) = w.input_wired i d old in
          let fresh : (s.inputs i).connection ≢ some c = u.no_input i in
          (ground arith, o, ground arith, ground (arith, output_of o d))
    ]

    output_linked :
        (o d : ℕ)
        → contains d (t.outputs o).connections ≡ true
        → ((t.connections d).producer ≡ some o)
          × (i : ℕ) × ((t.connections d).consumer ≡ some i)
          × ((t.inputs i).connection ≡ some d)
    unfolding t
    output_linked o d e = elim (Bool-cases (c == d)) [
      | inl y ↦ (
        ground (arith, output_of o d, u.no_output o),
        q,
        ground arith,
        ground (arith, input_of q),
      )
      | inr n ↦
          let (prod, i, cons, set) = w.output_wired o d (ground (arith, output_of o d)) in
          (ground arith, i, ground arith, ground (arith, input_of i))
    ]

    linked-IsWired : IsWired t
    linked-IsWired = record {
      input_wired = input_linked;
      output_wired = output_linked;
      once = once_of;
    }

  refused :
      (registered : ℕ → Bool) (s : Store V) (c p q : ℕ) {e : Exception}
      → objection registered (s.outputs p) (s.inputs q) ≡ some e
      → (new_connection registered c p q s).1 ≡ record s {
        connections =
            update s.connections c (record { producer = some p; consumer = some q; queue = [] });
      }
  unfolding new_connection
  refused registered s c p q e = ground arith

  refused-IsWired :
      (s : Store V) (c : ℕ) (k : PinConnection V)
      → IsWired s
      → IsUnused c s
      → IsWired (record s { connections = update s.connections c k })
  refused-IsWired s c k w u = record {
    input_wired = λ i d e.
        let (cons, o, prod, listed) = w.input_wired i d e in
        let other : c ≢ d = ground (arith, u.no_input i) in (ground arith, o, ground arith, listed);
    output_wired = λ o d e.
        let (prod, i, cons, set) = w.output_wired o d e in
        let other : c ≢ d = ground (arith, u.no_output o) in (ground arith, i, ground arith, set);
    once = w.once;
  }

  -- What a construction leaves at the two pins, by the objection that it met.
  abbrev pub Leaves : Option Exception → ℕ → ℕ → ℕ → Store V → Store V → Type 0
  Leaves none c p q s after =
      ((after.inputs q).connection ≡ some c)
      × ((after.outputs p).connections ≡ (s.outputs p).connections ++ c ∷ [])
  Leaves (some e) c p q s after = (after.inputs ≡ s.inputs) × (after.outputs ≡ s.outputs)

  -- Constructing a connection at a fresh address keeps the pointers in agreement, whether it
  -- throws or not. If it does not throw, the input pin holds it and the output pin lists it last.
  -- If it throws, every pin is as before.
  pub new_connection-IsWired :
      (registered : ℕ → Bool) (s : Store V) (c p q : ℕ)
      → IsWired s
      → IsUnused c s
      → let after = (new_connection registered c p q s).1 in
        IsWired after × Leaves (objection registered (s.outputs p) (s.inputs q)) c p q s after
  unfolding t
  new_connection-IsWired registered s c p q w u =
      go (objection registered (s.outputs p) (s.inputs q)) refl
    where
      after : Store V
      after = (new_connection registered c p q s).1

      go :
          (o : Option Exception)
          → objection registered (s.outputs p) (s.inputs q) ≡ o
          → IsWired after × Leaves o c p q s after
      go none e =
          let same = new_connection_lem registered s c p q e in
          rw same
            (linked-IsWired registered s c p q w u (ground arith), (ground arith, ground arith))
      go (some x) e =
          let same = refused registered s c p q e in
          rw same (refused-IsWired s c _ w u, (refl, refl))
