-- ===== src/Wiring/Objections.antt =====
-- Which pairs of pins can be connected.
use parlevision.Base.{ℕ, ◌≡◌, Bool, true, false, Option, none, some, ◌==◌, if◌then◌else◌, arith}
use parlevision.Store.{Store, InputPin, OutputPin}
use parlevision.Store.Monad.{
  Result, ok, throws, Exception, illegal_connection, incompatible_type, duplicate_connection,
}
use parlevision.Wiring.{is_connected, is_dynamically_typed, can_connect_pins, new_connection}

-- The exception that a connection from the output pin to the input pin would meet.
abbrev pub objection : (ℕ → Bool) → OutputPin → InputPin → Option Exception
objection registered o i =
    if o.owner == i.owner
    then some illegal_connection
    else if is_connected i
    then some duplicate_connection
    else if is_dynamically_typed i
    then if registered o.type_id then none else some incompatible_type
    else if o.type_id == i.type_id
    then none
    else some incompatible_type

abbrev pub no_objection : Option Exception → Bool
no_objection none = true
no_objection (some e) = false

abbrev pub raised : Option Exception → Result (Unit {0})
raised none = ok tt
raised (some e) = throws e

module _ {V : Type 0} where
  -- canConnectPins says yes exactly if the constructor of PinConnection throws nothing, for every
  -- pair of pins; both find the first objection in the order: same owner, already connected,
  -- incompatible type. The pin-specific checks made last never object.
  pub can_connect_pins-new_connection :
      (registered : ℕ → Bool) (s : Store V) (c out_pin in_pin : ℕ)
      → let found = objection registered (s.outputs out_pin) (s.inputs in_pin) in
        ((can_connect_pins registered out_pin in_pin s).0 ≡ ok (no_objection found))
        × ((new_connection registered c out_pin in_pin s).0 ≡ raised found)
  unfolding can_connect_pins new_connection
  can_connect_pins-new_connection registered s c out_pin in_pin = (ground arith, ground arith)
