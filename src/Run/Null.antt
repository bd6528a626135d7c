-- ===== src/Run/Null.antt =====
-- src/plvcore/PipelineProcessor.cpp (__process), src/plvcore/DataConsumer.cpp (preInput): what a
-- null item does to a run.
use parlevision.Base.{
  ℕ, ◌≡◌, refl, sym, ◌∙◌, ap, subst, Bool, true, false, ◌||◌, ◌&&◌, List, [], ◌∷◌, none, some,
  arith, Bool-cases, Option-cases, ◌⊎◌, inl, inr,
}
use parlevision.Store.{Store, InputPin, PinConnection, Element, running, update}
use parlevision.Store.Monad.{M, ok, ◌>>=◌, ◌>>◌, pure}
use parlevision.Consumer.{pre, peek_next, required_input_pins_connected}
use parlevision.Consumer.Availability.{AllWait, head_serial, is_synchronous_input}
use parlevision.Consumer.Flush.{
  pre_input, look_at, null_before, peek_is_null, feeds_any, Apart, Drained,
  flush_first_on_synchronous_pins, flush_first_on_synchronous_pins-Drained,
}
use parlevision.Run.{is_running, pre_output, post_output, propagate_null, process_data, process_run}

or_assoc : (a b c : Bool) → ((a || b) || c) ≡ (a || (b || c))
or_assoc true b c = refl
or_assoc false b c = refl

or_false : (a : Bool) → (a || false) ≡ a
or_false true = refl
or_false false = refl

module _ {V : Type 0} where
  -- Whether the first item at a pin is a null item, and the pin guarantees data to its processor.
  abbrev pub null_at : Store V → ℕ → Bool
  null_at s q =
      is_synchronous_input s q && (s.inputs q).guaranteed && (elim (s.inputs q).connection [
        | none ↦ false
        | some c ↦ elim (s.connections c).queue [ [] ↦ false | d ∷ rest ↦ d.is_null ]
      ])

  abbrev pub any_null : Store V → List ℕ → Bool
  any_null s [] = false
  any_null s (q ∷ pins) = null_at s q || any_null s pins

  -- The pins have the same connections, with the same items.
  pub record SameWires (s t : Store V) : Type 0 where
    pub connection : (q : ℕ) → (t.inputs q).connection ≡ (s.inputs q).connection
    pub synchronous : (q : ℕ) → (t.inputs q).synchronous ≡ (s.inputs q).synchronous
    pub guaranteed : (q : ℕ) → (t.inputs q).guaranteed ≡ (s.inputs q).guaranteed
    pub connections : t.connections ≡ s.connections

  -- Only the marks of the calls on input pins may differ.
  pub record Quiet (s t : Store V) : Type 0 where
    pub wires : SameWires s t
    pub outputs : t.outputs ≡ s.outputs
    pub elements : t.elements ≡ s.elements
    pub ready : t.ready ≡ s.ready

  feeds_any-SameWires :
      (s t : Store V) (x : ℕ) (pins : List ℕ)
      → SameWires s t
      → feeds_any t.inputs x pins ≡ feeds_any s.inputs x pins
  feeds_any-SameWires s t x [] k = refl
  feeds_any-SameWires s t x (q ∷ pins) k =
      ground (arith, k.connection q, k.synchronous q, feeds_any-SameWires s t x pins k)

  SameWires-trans : (s t u : Store V) → SameWires s t → SameWires t u → SameWires s u
  SameWires-trans s t u a b = record {
    connection = λ q. b.connection q ∙ a.connection q;
    synchronous = λ q. b.synchronous q ∙ a.synchronous q;
    guaranteed = λ q. b.guaranteed q ∙ a.guaranteed q;
    connections = b.connections ∙ a.connections;
  }

  same_wires :
      (s t : Store V)
      → ((q : ℕ) → t.inputs q ≡ s.inputs q)
      → t.connections ≡ s.connections
      → SameWires s t
  same_wires s t i c = record {
    connection = λ q. ap (λ (p : InputPin). p.connection) (i q);
    synchronous = λ q. ap (λ (p : InputPin). p.synchronous) (i q);
    guaranteed = λ q. ap (λ (p : InputPin). p.guaranteed) (i q);
    connections = c;
  }

  abbrev unmark : ℕ → Store V → Store V
  unmark q s = record s { inputs = update s.inputs q (record (s.inputs q) { called = false }) }

  unmark-Quiet : (q : ℕ) (s : Store V) → Quiet s (unmark q s)
  unmark-Quiet q s = record {
    wires = record {
      connection = λ x. ground arith;
      synchronous = λ x. ground arith;
      guaranteed = λ x. ground arith;
      connections = refl;
    };
    outputs = refl;
    elements = refl;
    ready = refl;
  }

  look_at-unmark :
      (q n : ℕ) (d : Bool) (s : Store V)
      → (is_synchronous_input s q ≡ true → head_serial s q ≡ some n)
      → look_at q d s ≡ (ok (d || null_at s q), unmark q s)
  unfolding look_at null_before peek_is_null peek_next pre
  look_at-unmark q n d s w = elim (Bool-cases (is_synchronous_input s q)) [
    | inl y ↦ let waits = w y in ground arith
    | inr z ↦ ground arith
  ]

  is_synchronous_input-SameWires :
      (s t : Store V) (q : ℕ) → SameWires s t → is_synchronous_input t q ≡ is_synchronous_input s q
  is_synchronous_input-SameWires s t q k = ground (arith, k.connection q, k.synchronous q)

  head_serial-SameWires :
      (s t : Store V) (q : ℕ) → SameWires s t → head_serial t q ≡ head_serial s q
  head_serial-SameWires s t q k = elim (Option-cases (s.inputs q).connection) [
    | inl e ↦ ground (arith, k.connection q)
    | inr (c, e) ↦
        let queue = ap (λ (f : ℕ → PinConnection V). (f c).queue) k.connections in
        ground (arith, k.connection q, queue)
  ]

  null_at-SameWires : (s t : Store V) (q : ℕ) → SameWires s t → null_at t q ≡ null_at s q
  null_at-SameWires s t q k = elim (Option-cases (s.inputs q).connection) [
    | inl e ↦ ground (arith, k.connection q, k.synchronous q, k.guaranteed q)
    | inr (c, e) ↦
        let queue = ap (λ (f : ℕ → PinConnection V). (f c).queue) k.connections in
        ground (arith, k.connection q, k.synchronous q, k.guaranteed q, queue)
  ]

  any_null-SameWires :
      (s t : Store V) (pins : List ℕ) → SameWires s t → any_null t pins ≡ any_null s pins
  any_null-SameWires s t [] k = refl
  any_null-SameWires s t (q ∷ pins) k =
      ground (arith, null_at-SameWires s t q k, any_null-SameWires s t pins k)

  AllWait-SameWires :
      (s t : Store V) (n : ℕ) (pins : List ℕ) → SameWires s t → AllWait s n pins → AllWait t n pins
  AllWait-SameWires s t n [] k w = tt
  AllWait-SameWires s t n (q ∷ pins) k w = (
    λ h. head_serial-SameWires s t q k ∙ w.0 (sym (is_synchronous_input-SameWires s t q k) ∙ h),
    AllWait-SameWires s t n pins k w.1,
  )

  Quiet-trans : (s t u : Store V) → Quiet s t → Quiet t u → Quiet s u
  Quiet-trans s t u a b = record {
    wires = SameWires-trans s t u a.wires b.wires;
    outputs = b.outputs ∙ a.outputs;
    elements = b.elements ∙ a.elements;
    ready = b.ready ∙ a.ready;
  }

  pre_input-Quiet :
      (pins : List ℕ) (n : ℕ) (d : Bool) (s : Store V)
      → AllWait s n pins
      → (t : Store V) × Quiet s t × (pre_input pins d s ≡ (ok (d || any_null s pins), t))
  unfolding pre_input
  pre_input-Quiet [] n d s w = (
    s,
    record {
      wires = same_wires s s (λ q. refl) refl;
      outputs = refl;
      elements = refl;
      ready = refl;
    },
    rw (or_false d) refl,
  )
  pre_input-Quiet (q ∷ pins) n d s w =
      let here = unmark-Quiet q s in
      let first = look_at-unmark q n d s w.0 in
      let (t, quiet, rest) =
        pre_input-Quiet pins n (d || null_at s q) (unmark q s)
          (AllWait-SameWires s (unmark q s) n pins here.wires w.1) in
      let same : any_null (unmark q s) pins ≡ any_null s pins =
        any_null-SameWires s (unmark q s) pins here.wires in
      (
        t,
        Quiet-trans s (unmark q s) t here quiet,
        rw first (rest ∙ rw (same, or_assoc d (null_at s q) (any_null s pins)) refl),
      )

  Apart-SameWires :
      (s t : Store V) (pins : List ℕ) → SameWires s t → Apart s.inputs pins → Apart t.inputs pins
  Apart-SameWires s t [] k a = tt
  Apart-SameWires s t (q ∷ pins) k a = (
    λ x e. feeds_any-SameWires s t x pins k ∙ a.0 x (sym (k.connection q) ∙ e),
    Apart-SameWires s t pins k a.1,
  )

  propagate_null_lem :
      (e : ℕ) (t : Store V) (inputs outputs : List ℕ)
      → (t.elements e).inputs ≡ inputs
      → (t.elements e).outputs ≡ outputs
      → (flush_first_on_synchronous_pins inputs t).0 ≡ ok tt
      → propagate_null e t
        ≡ (do pre_output outputs; post_output outputs; pure true)
            (flush_first_on_synchronous_pins inputs t).1
  unfolding propagate_null
  propagate_null_lem e t inputs outputs i o h = rw (i, o, h) refl

  process_data_lem :
      (process : M V Bool) (e : ℕ) (t : Store V) (outputs : List ℕ)
      → (t.elements e).outputs ≡ outputs
      → process_data process e t
        ≡ (do pre_output outputs; result ← process; post_output outputs; pure result) t
  unfolding process_data
  process_data_lem process e t outputs o = rw o refl

  -- __process of a running processor whose required pins are connected and no two of whose input
  -- pins have one connection, when an item with the serial of the run waits at each connected
  -- synchronous pin: the state in which it goes on, t, has changed in nothing but the serial of
  -- the element and the marks on its input pins. If an item at the front of a synchronous pin that
  -- guarantees data is a null item, then, whatever process does, the first item of each connected
  -- synchronous pin is thrown away, nothing else changes, and then only preOutput and postOutput
  -- are called for the output pins, so that process is not. Else preOutput, process and postOutput
  -- are called in this order, and what process returns is the result.
  pub process_run-null :
      (e serial n : ℕ) (s : Store V)
      → required_input_pins_connected s (s.elements e).inputs ≡ true
      → (s.elements e).state ≡ running
      → Apart s.inputs (s.elements e).inputs
      → AllWait s n (s.elements e).inputs
      → let el = s.elements e in
        let began = record s { elements = update s.elements e (record el { serial = serial }) } in
        (t : Store V) × Quiet began t
        × ((any_null s el.inputs ≡ true
              × (u : Store V) × Drained (λ x. feeds_any s.inputs x el.inputs) t u
              × ((process : M V Bool)
                  → process_run process e serial s
                    ≡ (do pre_output el.outputs; post_output el.outputs; pure true) u))
            ⊎ (any_null s el.inputs ≡ false
                × ((process : M V Bool)
                    → process_run process e serial s
                      ≡ (do
                        pre_output el.outputs
                        result ← process
                        post_output el.outputs
                        pure result)
                          t)))
  unfolding process_run
  process_run-null e serial n s linked up apart w =
      let el = s.elements e in
      let began : Store V = record s {
        elements = update s.elements e (record el { serial = serial });
      } in
      let same = same_wires s began (λ q. refl) refl in
      let (t, quiet, looked) =
        pre_input-Quiet el.inputs n false began (AllWait-SameWires s began n el.inputs same w) in
      let found : pre_input el.inputs false began ≡ (ok (any_null s el.inputs), t) =
        looked ∙ rw (any_null-SameWires s began el.inputs same) refl in
      let wires = SameWires-trans s began t same quiet.wires in
      let (flushed, drained) =
        flush_first_on_synchronous_pins-Drained el.inputs n t
          (Apart-SameWires s t el.inputs wires apart) (AllWait-SameWires s t n el.inputs wires w) in
      let ins : (t.elements e).inputs ≡ el.inputs =
        ap (λ (f : ℕ → Element). (f e).inputs) quiet.elements ∙ ground arith in
      let outs : (t.elements e).outputs ≡ el.outputs =
        ap (λ (f : ℕ → Element). (f e).outputs) quiet.elements ∙ ground arith in
      let runs : is_running el.state ≡ true = ap is_running up in
      (
        t,
        quiet,
        elim (Bool-cases (any_null s el.inputs)) [
          | inl y ↦ inl (
            y,
            (flush_first_on_synchronous_pins el.inputs t).1,
            subst (λ f. Drained f t (flush_first_on_synchronous_pins el.inputs t).1)
                (λ i x. feeds_any-SameWires s t x el.inputs wires i) drained,
            λ process.
                rw (linked, runs, found, y)
                  (propagate_null_lem e t el.inputs el.outputs ins outs flushed),
          )
          | inr z ↦ inr (
            z,
            λ process. rw (linked, runs, found, z) (process_data_lem process e t el.outputs outs),
          )
        ],
      )
