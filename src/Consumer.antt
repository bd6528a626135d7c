-- ===== src/Consumer.antt =====
-- A consumer and its input pins: src/plvcore/IInputPin.cpp (pre, post, hasDataItems, hasData,
-- peekNext, removeFirst, clear, getVariant) and src/plvcore/DataConsumer.cpp (initInputPins,
-- requiredInputPinsConnected, dataAvailableOnInputPins, preInput, flushFirstOnSynchronousPins). A
-- const method is a function of the store.
pub mod Availability
pub mod Protocol
pub mod Flush
mod Examples
use parlevision.Base.{
  ℕ, zero, suc, ◌+◌, Bool, true, false, not, ◌||◌, ◌&&◌, List, [], ◌∷◌, ◌++◌, Option, none, some,
  ◌==◌, ltb, if◌then◌else◌, min, all,
}
use parlevision.Connection
use parlevision.Connection.{Data}
use parlevision.Scoreboard
use parlevision.Store.{Store, InputPin, OutputPin, PinConnection, Element, update, failed}
use parlevision.Store.Monad.{
  M, ◌>>=◌, ◌>>◌, pure, throw, throw_if, abort, assert, when, pointed, the_input, the_connection,
  the_element, put_input, put_connection, put_element, runtime_error, for_each, ok, aborted,
}
use parlevision.Wiring.{is_connected}

-- The counters of the loop in initInputPins.
pub record PinCount : Type 0 where
  pub asynchronous : Bool
  pub synchronous : Bool
  pub synchronous_count : ℕ

module _ {V : Type 0} where
  -- IInputPin::hasDataItems
  pub has_data_items : Store V → ℕ → Bool
  unfolding Connection.has_data_items
  has_data_items s q = elim (s.inputs q).connection [
    | none ↦ false
    | some c ↦ Connection.has_data_items (s.connections c).queue
  ]

  -- IInputPin::peekNext. `none` is a failed assertion or an exception.
  unfoldable pub peek_next : Store V → ℕ → Option (ℕ × Bool)
  unfolding Connection.peek_serial
  peek_next s q = elim (s.inputs q).connection [
    | none ↦ none
    | some c ↦ Connection.peek_serial (s.connections c).queue
  ]

  -- IInputPin::hasData
  pub has_data : Store V → ℕ → Bool
  unfolding has_data_items peek_next
  has_data s q =
      if has_data_items s q
      then elim (peek_next s q) [ none ↦ false | some (serial, is_null) ↦ not is_null ]
      else false

  -- IInputPin::pre
  unfoldable pub pre : ℕ → M V (Unit {0})
  pre q = do i ← the_input q; put_input q (record i { called = false })

  -- IInputPin::post
  pub post : ℕ → M V (Unit {0})
  post q = do
    i ← the_input q
    throw_if (is_connected i && i.synchronous && not i.called) runtime_error

  -- PinConnection::get, with the queue that it changes.
  pub take_item : ℕ → M V (Data V)
  unfolding Connection.get
  take_item c = do
    conn ← the_connection c
    elim (Connection.get conn.queue) [
      | none ↦ throw runtime_error
      | some (d, rest) ↦ put_connection c (record conn { queue = rest }) >> pure d
    ]

  -- IInputPin::removeFirst
  pub remove_first : ℕ → M V (Unit {0})
  unfolding take_item
  remove_first q = do i ← the_input q; c ← pointed i.connection; d ← take_item c; pure tt

  abbrev pub asks : (Store V → Bool) → M V Bool
  asks f s = (ok (f s), s)

  -- IInputPin::clear
  pub clear : ℕ → M V (Unit {0})
  unfolding remove_first has_data_items
  clear q = do
    i ← the_input q
    throw_if i.called runtime_error
    put_input q (record i { called = true })
    full ← asks (λ s. has_data_items s q)
    throw_if (not full) runtime_error
    remove_first q

  -- IInputPin::getVariant
  pub get_variant : ℕ → M V (Option V)
  unfolding take_item has_data_items
  get_variant q = do
    i ← the_input q
    throw_if i.called runtime_error
    put_input q (record i { called = true })
    full ← asks (λ s. has_data_items s q)
    throw_if (not full) runtime_error
    c ← pointed i.connection
    d ← take_item c
    throw_if d.is_null runtime_error
    pure d.payload

  pub count_pins : Store V → List ℕ → PinCount → PinCount
  count_pins s [] n = n
  count_pins s (q ∷ pins) n =
      let i = s.inputs q in
      count_pins s pins (
        if is_connected i
        then if i.synchronous
          then record n { synchronous = true; synchronous_count = n.synchronous_count + 1 }
          else record n { asynchronous = true }
        else n)

  -- DataConsumer::initInputPins
  pub init_input_pins : ℕ → M V (Unit {0})
  unfolding count_pins
  init_input_pins e s =
      let el = s.elements e in
      let n =
        count_pins s el.inputs
          (record { asynchronous = false; synchronous = false; synchronous_count = 0 }) in
      put_element e
        (record el {
          has_asynchronous_pin = n.asynchronous;
          has_synchronous_pin = n.synchronous;
          scoreboard = Scoreboard.set_pin_count n.synchronous_count el.scoreboard;
        })
        s

  -- DataConsumer::requiredInputPinsConnected
  unfoldable pub required_input_pins_connected : Store V → List ℕ → Bool
  required_input_pins_connected s [] = true
  required_input_pins_connected s (q ∷ pins) =
      let i = s.inputs q in
      if i.required && not (is_connected i) then false else required_input_pins_connected s pins
