-- ===== src/Wiring.antt =====
-- src/plvcore/PinConnection.cpp (constructor, canConnectPins, connect, disconnect), with the
-- parts of IInputPin.cpp, IOutputPin.cpp, DynamicInputPin.h and CvMatDataPin.cpp that they call.
-- Error texts and the empty callbacks onInputConnectionSet, onOutputConnectionAdded and so on are
-- left out. `registered` is QMetaType::isRegistered.
pub mod Objections
pub mod Links
pub mod Cut
pub mod Removal
mod Examples
use parlevision.Base.{
  ℕ, Bool, true, false, not, ◌||◌, List, [], ◌∷◌, ◌++◌, Option, none, some, ◌==◌, if◌then◌else◌,
}
use parlevision.Store.{
  Store, InputPin, OutputPin, PinConnection, InputKind, typed_input, matrix_input, dynamic_input,
  OutputKind, typed_output, matrix_output,
}
use parlevision.Store.Monad.{
  M, ◌>>=◌, ◌>>◌, pure, throw_if, abort, assert, pointed, the_input, the_output, the_connection,
  put_input, put_output, put_connection, illegal_connection, incompatible_type,
  duplicate_connection,
}

-- IInputPin::isConnected
abbrev pub is_connected : InputPin → Bool
is_connected i = elim i.connection [ none ↦ false | some c ↦ true ]

-- isDynamicallyTyped
abbrev pub is_dynamically_typed : InputPin → Bool
is_dynamically_typed i = elim i.kind [ dynamic_input ↦ true | _ ↦ false ]

-- acceptsConnectionWith of the output pin.
pub output_accepts : OutputPin → InputPin → Bool
output_accepts o i = elim o.kind [ typed_output ↦ true | matrix_output ↦ i.type_id == o.type_id ]

-- acceptsConnectionWith of the input pin.
pub input_accepts : InputPin → OutputPin → Bool
input_accepts i o = elim i.kind [
  | typed_input ↦ true
  | matrix_input ↦ o.type_id == i.type_id
  | dynamic_input ↦ true
]

-- The loop of IOutputPin::removeConnection: `none` if the connection is not there.
pub erase_first : ℕ → List ℕ → Option (List ℕ)
erase_first c [] = none
erase_first c (x ∷ xs) = elim (x == c) [
  | true ↦ some xs
  | false ↦ elim (erase_first c xs) [ none ↦ none | some rest ↦ some (x ∷ rest) ]
]

module _ {V : Type 0} where
  -- IInputPin::setConnection
  pub set_connection : ℕ → ℕ → M V (Unit {0})
  set_connection in_pin c = do
    i ← the_input in_pin
    assert (not (is_connected i))
    put_input in_pin (record i { connection = some c })

  -- IInputPin::removeConnection
  pub remove_input_connection : ℕ → M V (Unit {0})
  remove_input_connection in_pin = do
    i ← the_input in_pin
    assert (is_connected i)
    put_input in_pin (record i { connection = none })

  -- IOutputPin::addConnection
  pub add_connection : ℕ → ℕ → M V (Unit {0})
  add_connection out_pin c = do
    o ← the_output out_pin
    put_output out_pin (record o { connections = o.connections ++ c ∷ [] })

  -- IOutputPin::removeConnection
  pub remove_output_connection : ℕ → ℕ → M V (Unit {0})
  unfolding erase_first
  remove_output_connection out_pin c = do
    o ← the_output out_pin
    elim (erase_first c o.connections) [
      | none ↦ abort
      | some rest ↦ put_output out_pin (record o { connections = rest })
    ]

  module _ (registered : ℕ → Bool) where
    -- DynamicInputPin::setTypeId
    pub set_type_id : ℕ → ℕ → M V Bool
    set_type_id in_pin type_id = do
      i ← the_input in_pin
      if is_connected i || not (registered type_id)
          then pure false
          else do put_input in_pin (record i { type_id = type_id }); pure true

    -- The test of the types, which canConnectPins and connect have in common.
    abbrev pub has_compatible_type : ℕ → InputPin → OutputPin → M V Bool
    has_compatible_type in_pin i o =
        if is_dynamically_typed i
        then set_type_id in_pin o.type_id
        else pure (o.type_id == i.type_id)

    -- PinConnection::canConnectPins
    pub can_connect_pins : ℕ → ℕ → M V Bool
    unfolding set_type_id output_accepts input_accepts
    can_connect_pins out_pin in_pin = do
      o ← the_output out_pin
      i ← the_input in_pin
      if o.owner == i.owner then pure false else if is_connected i then pure false else do
        compatible ← has_compatible_type in_pin i o
        if not compatible then pure false else do
          j ← the_input in_pin
          if not (output_accepts o j)
              then pure false
              else if not (input_accepts j o)
              then pure false
              else pure true

    -- PinConnection::connect
    pub connect : ℕ → M V (Unit {0})
    unfolding set_type_id output_accepts input_accepts add_connection set_connection
    connect c = do
      conn ← the_connection c
      in_pin ← pointed conn.consumer
      out_pin ← pointed conn.producer
      i ← the_input in_pin
      o ← the_output out_pin
      throw_if (i.owner == o.owner) illegal_connection
      throw_if (is_connected i) duplicate_connection
      compatible ← has_compatible_type in_pin i o
      throw_if (not compatible) incompatible_type
      j ← the_input in_pin
      throw_if (not (output_accepts o j)) incompatible_type
      throw_if (not (input_accepts j o)) incompatible_type
      add_connection out_pin c
      set_connection in_pin c
      k ← the_input in_pin
      assert (is_connected k)

    -- The constructor PinConnection(id, producer, consumer) for the new object `c`.
    pub new_connection : ℕ → ℕ → ℕ → M V (Unit {0})
    unfolding connect
    new_connection c out_pin in_pin = do
      put_connection c (record { producer = some out_pin; consumer = some in_pin; queue = [] })
      connect c

  -- PinConnection::disconnect
  pub disconnect : ℕ → M V (Unit {0})
  unfolding remove_output_connection remove_input_connection
  disconnect c = do
    conn ← the_connection c
    out_pin ← pointed conn.producer
    remove_output_connection out_pin c
    in_pin ← pointed conn.consumer
    remove_input_connection in_pin
    put_connection c (record { producer = none; consumer = none; queue = [] })
