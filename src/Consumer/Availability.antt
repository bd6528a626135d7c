-- ===== src/Consumer/Availability.antt =====
-- src/plvcore/DataConsumer.cpp (dataAvailableOnInputPins): when a consumer may run, and for
-- which serial.
pub mod Serials
use parlevision.Base.{
  ℕ, zero, suc, ◌+◌, ◌≡◌, ◌≤◌, refl, ◌↔◌, Bool, true, false, not, ◌||◌, ◌&&◌, List, [], ◌∷◌, ◌++◌,
  Option, none, some, ◌==◌, ltb, if◌then◌else◌, min, all, arith, inl, inr, Bool-cases, Option-cases,
  ◌⊎◌, append-nil, append_assoc, is_empty,
}
use parlevision.Connection
use parlevision.Connection.{Data}
use parlevision.Store.{Store, InputPin, Element, update, failed}
use parlevision.Store.Monad.{M, ok, aborted, put_element}
use parlevision.Wiring.{is_connected}
use parlevision.Consumer.{has_data_items, peek_next}

-- `ready` is the result true with nextSerial. `fault` is a read past the end of a vector, or of
-- an empty connection.
pub data Available : Type 0 where
  ready : ℕ → Available
  not_ready corrupted fault : Available

-- The comparison of all serials with the first one.
pub compare_serials : Option (List ℕ) → Available
compare_serials none = not_ready
compare_serials (some []) = fault
compare_serials (some (first ∷ rest)) =
    if all (λ x. first == x) rest then ready first else corrupted

-- The first element of the sorted vector is the smallest.
abbrev pub smallest : ℕ → List ℕ → ℕ
smallest m [] = m
smallest m (x ∷ xs) = smallest (min m x) xs

pub first_sorted : List ℕ → Available
first_sorted [] = not_ready
first_sorted (x ∷ xs) = ready (smallest x xs)

module _ {V : Type 0} where
  -- The loop over the synchronous pins; `none` is the early `return false`.
  pub synchronous_serials : Store V → List ℕ → List ℕ → Option (List ℕ)
  synchronous_serials s [] serials = some serials
  synchronous_serials s (q ∷ pins) serials =
      let i = s.inputs q in
      if is_connected i && i.synchronous
      then if has_data_items s q
        then elim (peek_next s q) [
          | none ↦ none
          | some (serial, is_null) ↦ synchronous_serials s pins (serials ++ serial ∷ [])
        ]
        else none
      else synchronous_serials s pins serials

  -- The loop over the connected pins of an asynchronous consumer.
  pub asynchronous_serials : Store V → List ℕ → List ℕ → List ℕ
  asynchronous_serials s [] serials = serials
  asynchronous_serials s (q ∷ pins) serials =
      let i = s.inputs q in
      asynchronous_serials s pins (
        if is_connected i && has_data_items s q
        then elim (peek_next s q) [
          | none ↦ serials
          | some (serial, is_null) ↦ serials ++ serial ∷ []
        ]
        else serials)

  pub data_available : Store V → Element → Available
  unfolding synchronous_serials asynchronous_serials compare_serials first_sorted
  data_available s el =
      if el.has_synchronous_pin
      then compare_serials (synchronous_serials s el.inputs [])
      else if el.has_asynchronous_pin
      then first_sorted (asynchronous_serials s el.inputs [])
      else not_ready

  -- With the call of setError in the case of corrupted input.
  unfoldable pub data_available_on_input_pins : ℕ → M V (Option ℕ)
  unfolding data_available
  data_available_on_input_pins e s = elim (data_available s (s.elements e)) [
    | ready serial ↦ (ok (some serial), s)
    | not_ready ↦ (ok none, s)
    | corrupted ↦ (
      ok none,
      record s { elements = update s.elements e (record (s.elements e) { state = failed }) },
    )
    | fault ↦ (aborted, s)
  ]

  -- The serial of the first item that waits at a pin.
  abbrev pub head_serial : Store V → ℕ → Option ℕ
  head_serial s q = elim (s.inputs q).connection [
    | none ↦ none
    | some c ↦ elim (s.connections c).queue [ [] ↦ none | d ∷ rest ↦ some d.serial ]
  ]

  abbrev pub is_synchronous_input : Store V → ℕ → Bool
  is_synchronous_input s q = is_connected (s.inputs q) && (s.inputs q).synchronous

  -- Every synchronous connected pin has an item with the serial at its front.
  abbrev pub AllWait : Store V → ℕ → List ℕ → Type 0
  AllWait s serial [] = Unit {0}
  AllWait s serial (q ∷ pins) =
      (is_synchronous_input s q ≡ true → head_serial s q ≡ some serial) × AllWait s serial pins

  abbrev pub any_synchronous : Store V → List ℕ → Bool
  any_synchronous s [] = false
  any_synchronous s (q ∷ pins) = is_synchronous_input s q || any_synchronous s pins
