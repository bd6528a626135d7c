-- ===== src/Delivery.antt =====
-- How an item travels from an output pin to the ready queue of the pipeline:
-- src/plvcore/IOutputPin.cpp (pre, post, putVariant), PinConnection.cpp (put, isSynchronous),
-- IInputPin.cpp (acceptData), DataConsumer.cpp (newData) and
-- Pipeline.cpp (pipelineDataConsumerReady). Signals to viewers are left out.
pub mod Frame
pub mod Spread
pub mod Rounds
mod Examples
use parlevision.Base.{
  ℕ, ◌≡◌, Bool, true, false, not, ◌||◌, ◌&&◌, List, [], ◌∷◌, ◌++◌, Option, none, some, ◌==◌, ltb,
  if◌then◌else◌, is_empty,
}
use parlevision.Connection
use parlevision.Connection.{Data, null_data, data_of}
use parlevision.Scoreboard
use parlevision.Store.{Store, InputPin, OutputPin, PinConnection, Element, update}
use parlevision.Store.Monad.{
  M, ◌>>=◌, ◌>>◌, pure, throw_if, abort, assert, when, pointed, the_input, the_output,
  the_connection, the_element, put_input, put_output, put_connection, put_element, runtime_error,
  for_each, ok, aborted,
}

module _ {V : Type 0} where
  -- Pipeline::pipelineDataConsumerReady. An element without a ready queue is a null pointer.
  pub pipeline_data_consumer_ready : ℕ → ℕ → M V (Unit {0})
  pipeline_data_consumer_ready serial e s = elim (s.ready e) [
    | none ↦ (aborted, s)
    | some queue ↦ (ok tt, record s { ready = update s.ready e (some (queue ++ serial ∷ [])) })
  ]

  -- DataConsumer::newData
  pub new_data : ℕ → ℕ → ℕ → M V (Unit {0})
  unfolding pipeline_data_consumer_ready
  new_data e in_pin serial = do
    el ← the_element e
    i ← the_input in_pin
    if not el.has_synchronous_pin
        then pipeline_data_consumer_ready serial e
        else if not i.synchronous
        then pure tt
        else do
          assert (ltb el.serial serial || serial == 0)
          let added = Scoreboard.add serial el.scoreboard
          put_element e (record el { scoreboard = added.1 })
          when added.0 (pipeline_data_consumer_ready serial e)

  -- IInputPin::acceptData
  pub accept_data : ℕ → Data V → M V (Unit {0})
  unfolding new_data
  accept_data in_pin d = do i ← the_input in_pin; new_data i.owner in_pin d.serial

  -- PinConnection::put
  pub put : ℕ → Data V → M V (Unit {0})
  unfolding accept_data Connection.push
  put c d = do
    conn ← the_connection c
    put_connection c (record conn { queue = Connection.push conn.queue d })
    in_pin ← pointed conn.consumer
    accept_data in_pin d

  -- IOutputPin::pre
  unfoldable pub pre : ℕ → M V (Unit {0})
  pre out_pin = do o ← the_output out_pin; put_output out_pin (record o { called = false })

  -- IOutputPin::putVariant
  pub put_variant : ℕ → ℕ → V → M V (Unit {0})
  put_variant out_pin serial v = do
    o ← the_output out_pin
    throw_if o.called runtime_error
    put_output out_pin (record o { called = true })
    for_each o.connections (λ c. put c (data_of serial v))

  -- PinConnection::isSynchronous
  pub is_synchronous : ℕ → M V Bool
  is_synchronous c = do
    conn ← the_connection c
    in_pin ← pointed conn.consumer
    i ← the_input in_pin
    pure i.synchronous

  -- The body of the loop in IOutputPin::post.
  pub put_null : ℕ → ℕ → M V (Unit {0})
  unfolding is_synchronous
  put_null serial c = do synchronous ← is_synchronous c; when synchronous (put c (null_data serial))

  -- IOutputPin::post
  unfoldable pub post : ℕ → M V (Unit {0})
  unfolding put_null
  post out_pin = do
    o ← the_output out_pin
    el ← the_element o.owner
    when (not (is_empty o.connections) && not o.called)
        (for_each o.connections (put_null el.serial))
