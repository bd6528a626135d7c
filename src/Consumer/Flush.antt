-- ===== src/Consumer/Flush.antt =====
-- src/plvcore/DataConsumer.cpp (preInput, flushFirstOnSynchronousPins): the handling of a run in
-- which a null item has come in.
use parlevision.Base.{
  ℕ, ◌≡◌, refl, ◌∙◌, sym, ap, subst, Bool, true, false, not, ◌||◌, ◌&&◌, List, [], ◌∷◌, none, some,
  ◌==◌, if◌then◌else◌, arith, inl, inr, Bool-cases, Option-cases,
}
use parlevision.Connection.{Data}
use parlevision.Store.{Store, InputPin}
use parlevision.Store.Monad.{
  M, Result, ok, throws, runtime_error, ◌>>=◌, ◌>>◌, pure, the_input, when, for_each, split_ok,
}
use parlevision.Wiring.{is_connected}
use parlevision.Consumer.Availability.{AllWait, head_serial, is_synchronous_input}
use parlevision.Consumer.{pre, peek_next, remove_first, take_item}

-- Whether a connection is the one of a pin, and the pin is synchronous.
abbrev pub feeds : (ℕ → InputPin) → ℕ → ℕ → Bool
feeds inputs x q = elim (inputs q).connection [
  | none ↦ false
  | some c ↦ c == x && (inputs q).synchronous
]

abbrev pub feeds_any : (ℕ → InputPin) → ℕ → List ℕ → Bool
feeds_any inputs x [] = false
feeds_any inputs x (q ∷ pins) = feeds inputs x q || feeds_any inputs x pins

-- No connection is the one of two of the pins.
abbrev pub Apart : (ℕ → InputPin) → List ℕ → Type 0
Apart inputs [] = Unit {0}
Apart inputs (q ∷ pins) =
    ((x : ℕ) → (inputs q).connection ≡ some x → feeds_any inputs x pins ≡ false) × Apart inputs pins

module _ {V : Type 0} where
  -- The result of peekNext as a call: an exception if the connection is empty.
  unfoldable pub peek_is_null : ℕ → M V Bool
  unfolding peek_next
  peek_is_null q s = elim (peek_next s q) [
    | none ↦ (throws runtime_error, s)
    | some (serial, is_null) ↦ (ok is_null, s)
  ]

  -- The statement on guaranteed synchronous pins in preInput.
  unfoldable pub null_before : InputPin → ℕ → Bool → M V Bool
  unfolding peek_is_null
  null_before i q detected =
      if not (is_connected i && i.synchronous && i.guaranteed)
      then pure detected
      else do is_null ← peek_is_null q; pure (if is_null then true else detected)

  -- The body of the loop in preInput, with the flag nullDetected.
  unfoldable pub look_at : ℕ → Bool → M V Bool
  unfolding null_before pre
  look_at q detected = do i ← the_input q; now ← null_before i q detected; pre q; pure now

  -- DataConsumer::preInput, over the input pins.
  unfoldable pub pre_input : List ℕ → Bool → M V Bool
  unfolding look_at
  pre_input [] detected = pure detected
  pre_input (q ∷ pins) detected = do now ← look_at q detected; pre_input pins now

  -- The body of the loop in flushFirstOnSynchronousPins.
  pub flush_first : ℕ → M V (Unit {0})
  unfolding remove_first
  flush_first q = do i ← the_input q; when (is_connected i && i.synchronous) (remove_first q)

  -- DataConsumer::flushFirstOnSynchronousPins, over the input pins.
  unfoldable pub flush_first_on_synchronous_pins : List ℕ → M V (Unit {0})
  unfolding flush_first
  flush_first_on_synchronous_pins pins = for_each pins flush_first

  abbrev pub tail : List (Data V) → List (Data V)
  tail [] = []
  tail (d ∷ rest) = rest

  -- The first items of some connections are gone, and nothing else has changed.
  pub record Drained (f : ℕ → Bool) (s t : Store V) : Type 0 where
    pub inputs : t.inputs ≡ s.inputs
    pub outputs : t.outputs ≡ s.outputs
    pub elements : t.elements ≡ s.elements
    pub ready : t.ready ≡ s.ready
    pub producers : (x : ℕ) → (t.connections x).producer ≡ (s.connections x).producer
    pub consumers : (x : ℕ) → (t.connections x).consumer ≡ (s.connections x).consumer
    pub queues :
        (x : ℕ)
        → (t.connections x).queue
          ≡ (if f x then tail (s.connections x).queue else (s.connections x).queue)

  flush_first-Drained :
      (q : ℕ) (s : Store V)
      → (flush_first q s).0 ≡ ok tt
      → Drained (λ x. feeds s.inputs x q) s (flush_first q s).1
  unfolding flush_first take_item
  flush_first-Drained q s h = record {
    inputs = ground arith;
    outputs = ground arith;
    elements = ground arith;
    ready = ground arith;
    producers = λ x. ground arith;
    consumers = λ x. ground arith;
    queues = λ x. ground arith;
  }

  flush-Drained :
      (pins : List ℕ) (s : Store V)
      → Apart s.inputs pins
      → (flush_first_on_synchronous_pins pins s).0 ≡ ok tt
      → Drained (λ x. feeds_any s.inputs x pins) s (flush_first_on_synchronous_pins pins s).1
  unfolding flush_first_on_synchronous_pins
  flush-Drained [] s a h = record {
    inputs = refl;
    outputs = refl;
    elements = refl;
    ready = refl;
    producers = λ x. refl;
    consumers = λ x. refl;
    queues = λ x. refl;
  }
  flush-Drained (q ∷ pins) s a h =
      let (first, rest) = split_ok (flush_first q) (flush_first_on_synchronous_pins pins) s h in
      let here = flush_first-Drained q s first in
      let there =
        flush-Drained pins (flush_first q s).1
          (subst (λ (f : ℕ → InputPin). Apart f pins) (sym here.inputs) a.1)
          (ap (λ (r : Result (Unit {0}) × Store V). r.0) (sym rest) ∙ h) in
      rw rest (record {
        inputs = there.inputs ∙ here.inputs;
        outputs = there.outputs ∙ here.outputs;
        elements = there.elements ∙ here.elements;
        ready = there.ready ∙ here.ready;
        producers = λ x. there.producers x ∙ here.producers x;
        consumers = λ x. there.consumers x ∙ here.consumers x;
        queues = λ x. ground (
          arith,
          here.queues x,
          there.queues x,
          ap (λ (f : ℕ → InputPin). feeds_any f x pins) here.inputs,
          a.0 x,
        );
      })

  flush_first-ok :
      (q : ℕ) (s : Store V) (n : ℕ)
      → (is_synchronous_input s q ≡ true → head_serial s q ≡ some n)
      → (flush_first q s).0 ≡ ok tt
  unfolding flush_first take_item
  flush_first-ok q s n h = elim (Bool-cases (is_synchronous_input s q)) [
    | inl y ↦ let w = h y in ground arith
    | inr z ↦ ground arith
  ]

  -- Taking one item leaves the items at the other pins where they are.
  AllWait-Drained :
      (q n : ℕ) (s t : Store V) (pins : List ℕ)
      → Drained (λ x. feeds s.inputs x q) s t
      → ((x : ℕ) → (s.inputs q).connection ≡ some x → feeds_any s.inputs x pins ≡ false)
      → AllWait s n pins
      → AllWait t n pins
  AllWait-Drained q n s t [] d apart w = tt
  AllWait-Drained q n s t (p ∷ pins) d apart w =
      (waiting, AllWait-Drained q n s t pins d (λ x e. ground (arith, apart x e)) w.1)
    where
      same : t.inputs p ≡ s.inputs p
      same = ap (λ (f : ℕ → InputPin). f p) d.inputs

      waiting : is_synchronous_input t p ≡ true → head_serial t p ≡ some n
      waiting h = elim (Option-cases (s.inputs p).connection) [
        | inl e ↦ absurd (ground (arith, ap (λ (i : InputPin). i.connection) same))
        | inr (c, e) ↦
            let was : is_synchronous_input s p ≡ true = rw (← same) h in
            let old = w.0 was in
            let kept : (t.connections c).queue ≡ (s.connections c).queue =
              ground (arith, d.queues c, apart c) in
            ground (arith, ap (λ (i : InputPin). i.connection) same)
      ]

  flush-ok :
      (pins : List ℕ) (n : ℕ) (s : Store V)
      → Apart s.inputs pins
      → AllWait s n pins
      → (flush_first_on_synchronous_pins pins s).0 ≡ ok tt
  unfolding flush_first_on_synchronous_pins
  flush-ok [] n s a w = refl
  flush-ok (q ∷ pins) n s a w =
      let first = flush_first-ok q s n w.0 in
      let here = flush_first-Drained q s first in
      let after = (flush_first q s).1 in
      let there =
        flush-ok pins n after (subst (λ (f : ℕ → InputPin). Apart f pins) (sym here.inputs) a.1)
          (AllWait-Drained q n s after pins here a.0 w.1) in
      ground (arith, there)

  -- flushFirstOnSynchronousPins, when at the front of each connected synchronous pin waits an item
  -- with the serial of the run and no two of the pins have one connection: it throws nothing, takes
  -- exactly one item, the first, from the connection of each synchronous pin, and changes nothing
  -- else: no other queue, no end of a connection, no pin, no element and no ready queue.
  pub flush_first_on_synchronous_pins-Drained :
      (pins : List ℕ) (n : ℕ) (s : Store V)
      → Apart s.inputs pins
      → AllWait s n pins
      → ((flush_first_on_synchronous_pins pins s).0 ≡ ok tt)
        × Drained (λ x. feeds_any s.inputs x pins) s (flush_first_on_synchronous_pins pins s).1
  flush_first_on_synchronous_pins-Drained pins n s a w =
      (flush-ok pins n s a w, flush-Drained pins s a (flush-ok pins n s a w))
