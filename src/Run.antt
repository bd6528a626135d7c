-- ===== src/Run.antt =====
-- One run of an element: src/plvcore/PipelineProcessor.cpp (__ready, __process),
-- src/plvcore/PipelineProducer.cpp (__ready, __process) and the loops preOutput and postOutput of
-- src/plvcore/DataProducer.cpp. The virtual methods process, produce and readyToProduce of the
-- element classes are parameters.
pub mod Null
mod Examples
use parlevision.Base.{
  ℕ, Bool, true, false, not, ◌||◌, ◌&&◌, List, Option, none, some, ◌==◌, ltb, if◌then◌else◌,
}
use parlevision.Store.{
  Store, State, undefined, initialized, started, dispatched, running, finished, failed,
}
use parlevision.Store.Monad.{
  M, ok, ◌>>=◌, ◌>>◌, pure, assert, when, for_each, the_element, put_element,
}
use parlevision.Lifecycle.{is_dispatched}
use parlevision.Delivery
use parlevision.Consumer.{asks, required_input_pins_connected}
use parlevision.Consumer.Availability.{data_available_on_input_pins}
use parlevision.Consumer.Flush.{pre_input, flush_first_on_synchronous_pins}

abbrev pub is_running : State → Bool
is_running undefined = false
is_running initialized = false
is_running started = false
is_running dispatched = false
is_running running = true
is_running finished = false
is_running failed = false

module _ {V : Type 0} where
  -- DataProducer::preOutput
  pub pre_output : List ℕ → M V (Unit {0})
  unfolding Delivery.pre
  pre_output pins = for_each pins Delivery.pre

  -- DataProducer::postOutput
  pub post_output : List ℕ → M V (Unit {0})
  unfolding Delivery.post
  post_output pins = for_each pins Delivery.post

  -- The condition on nextSerial in __ready.
  pub next_is : ℕ → ℕ → M V Bool
  unfolding data_available_on_input_pins
  next_is serial e = do
    next ← data_available_on_input_pins e
    pure (elim next [ none ↦ false | some n ↦ n == serial ])

  -- PipelineProcessor::__ready
  pub processor_ready : ℕ → ℕ → M V Bool
  unfolding next_is
  processor_ready e serial = do
    el ← the_element e
    if is_dispatched el.state then pure false else next_is serial e

  -- The branch of __process after nullDetected.
  pub propagate_null : ℕ → M V Bool
  unfolding pre_output post_output flush_first_on_synchronous_pins
  propagate_null e = do
    el ← the_element e
    flush_first_on_synchronous_pins el.inputs
    pre_output el.outputs
    post_output el.outputs
    pure true

  -- The rest of __process.
  pub process_data : (process : M V Bool) → ℕ → M V Bool
  unfolding pre_output post_output
  process_data process e = do
    el ← the_element e
    pre_output el.outputs
    result ← process
    post_output el.outputs
    pure result

  -- PipelineProcessor::__process. postInput does nothing.
  pub process_run : (process : M V Bool) → ℕ → ℕ → M V Bool
  unfolding propagate_null process_data required_input_pins_connected pre_input
  process_run process e serial = do
    el ← the_element e
    connected ← asks (λ s. required_input_pins_connected s el.inputs)
    assert connected
    assert (is_running el.state)
    put_element e (record el { serial = serial })
    null_detected ← pre_input el.inputs false
    if null_detected then propagate_null e else process_data process e

  -- PipelineProducer::__ready
  pub producer_ready : (ready_to_produce : Bool) → ℕ → M V Bool
  producer_ready ready_to_produce e = do
    el ← the_element e
    pure (not (is_dispatched el.state) && ready_to_produce)

  -- PipelineProducer::__process
  pub produce_run : (produce : M V Bool) → ℕ → ℕ → M V Bool
  unfolding pre_output post_output
  produce_run produce e serial = do
    el ← the_element e
    assert (ltb el.serial serial || serial == 0)
    put_element e (record el { serial = serial })
    pre_output el.outputs
    result ← produce
    post_output el.outputs
    now ← the_element e
    when (not result) (put_element e (record now { state = failed }))
    pure result
