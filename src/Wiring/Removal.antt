-- ===== src/Wiring/Removal.antt =====
-- Taking an element's connections away: src/plvcore/Pipeline.cpp (threadUnsafeDisconnect,
-- removeConnectionsForElement). A connection is addressed by its id.
pub mod Clears
use parlevision.Base.{ℕ, Bool, true, false, List, [], ◌∷◌, Option, none, some, if◌then◌else◌}
use parlevision.Store.{Store, update}
use parlevision.Store.Monad.{Result, ok, throws, aborted}
use parlevision.Wiring.{disconnect}

-- known: whether an id is in m_connections.
pub record Wires (V : Type 0) : Type 0 where
  pub known : ℕ → Bool
  pub store : Store V

module _ {V : Type 0} where
  abbrev pub removed : ℕ → Wires V → Result (Unit {0}) × Store V → Option (Wires V)
  removed c w (ok u, s) = some (record { known = update w.known c false; store = s })
  removed c w (throws e, s) = none
  removed c w (aborted, s) = none

  -- threadUnsafeDisconnect; `none` is an assertion that fails.
  pub thread_unsafe_disconnect : ℕ → Wires V → Option (Wires V)
  unfolding disconnect
  thread_unsafe_disconnect c w = if w.known c then removed c w (disconnect c w.store) else none

  -- The loop over the input pins in removeConnectionsForElement.
  pub clear_inputs : List ℕ → Wires V → Option (Wires V)
  unfolding thread_unsafe_disconnect
  clear_inputs [] w = some w
  clear_inputs (q ∷ pins) w = elim (w.store.inputs q).connection [
    | none ↦ clear_inputs pins w
    | some c ↦ elim (thread_unsafe_disconnect c w) [ none ↦ none | some u ↦ clear_inputs pins u ]
  ]

  -- The loop over the copy of the connections of an output pin.
  pub disconnect_each : List ℕ → Wires V → Option (Wires V)
  unfolding thread_unsafe_disconnect
  disconnect_each [] w = some w
  disconnect_each (c ∷ cs) w = elim (thread_unsafe_disconnect c w) [
    | none ↦ none
    | some u ↦ disconnect_each cs u
  ]

  -- The loop over the output pins.
  pub clear_outputs : List ℕ → Wires V → Option (Wires V)
  unfolding disconnect_each
  clear_outputs [] w = some w
  clear_outputs (o ∷ pins) w = elim (disconnect_each (w.store.outputs o).connections w) [
    | none ↦ none
    | some u ↦ clear_outputs pins u
  ]

  -- removeConnectionsForElement, for an element with these input pins and output pins.
  pub remove_connections_for_element : (inputs outputs : List ℕ) → Wires V → Option (Wires V)
  unfolding clear_inputs clear_outputs
  remove_connections_for_element inputs outputs w = elim (clear_inputs inputs w) [
    | none ↦ none
    | some u ↦ clear_outputs outputs u
  ]
