-- ===== src/Loader/Adding.antt =====
-- What src/plvcore/PipelineLoader.cpp (parseElements, parseConnections) does to the pipeline with
-- what it reads.
use parlevision.Base.{ℕ, Bool, true, false, not, List, Option, none, some, if◌then◌else◌, contains}
use parlevision.Base.Table.{Table, keys, values}
use parlevision.Registry.{new_id}
use parlevision.Registry.Maps
use parlevision.Registry.Maps.{value}
use parlevision.Loader.{Element, Connection, Pipeline, Fits, can_connect_pins}

-- The std::runtime_errors.
pub data LoadError : Type 0 where
  unknown_type used_id invalid_source invalid_sink no_producer no_consumer : LoadError
  no_output_pin no_input_pin cannot_connect : LoadError

-- What a call leaves: the error, if there is one, and the pipeline, with all that was added to it
-- before.
abbrev pub Loaded : Type 0
Loaded = Option LoadError × Pipeline

-- Only without an error does the code go on.
abbrev pub and_then : Loaded → (Pipeline → Loaded) → Loaded
and_then (none, p) f = f p
and_then (some e, p) f = (some e, p)

-- canAddElement and addElement. No property of an element is looked at by the pipeline, so that
-- it comes in with those that it gets afterwards.
abbrev pub place_for : Option ℕ → Table Element → ℕ
place_for none elements = new_id (keys elements)
place_for (some id) elements = id

abbrev pub has_place : Option ℕ → Table Element → Bool
has_place none elements = true
has_place (some id) elements = not (contains id (keys elements))

unfoldable pub add_element : Option ℕ → Element → Pipeline → Loaded
add_element id e p =
    if has_place id p.elements
    then (none, record p { elements = Maps.insert (place_for id p.elements) e p.elements })
    else (some used_id, p)

-- getElement
abbrev pub element_at : Option ℕ → Table Element → Option Element
element_at none elements = none
element_at (some id) elements = value id elements

abbrev pub has_pin : Option ℕ → List ℕ → Bool
has_pin none pins = false
has_pin (some id) pins = contains id pins

abbrev pub or_zero : Option ℕ → ℕ
or_zero none = 0
or_zero (some id) = id

module _ (fits : Fits) where
  -- The tests on the pins and connectPins.
  unfoldable pub connect_pins :
      Element → Element → (source source_pin sink sink_pin : Option ℕ) → Pipeline → Loaded
  unfolding can_connect_pins
  connect_pins s k source source_pin sink sink_pin p =
      let c : Connection = record {
        source = or_zero source;
        source_pin = or_zero source_pin;
        sink = or_zero sink;
        sink_pin = or_zero sink_pin;
      } in
      if not s.is_producer
      then (some no_producer, p)
      else if not k.is_consumer
      then (some no_consumer, p)
      else if not (has_pin source_pin s.output_pins)
      then (some no_output_pin, p)
      else if not (has_pin sink_pin k.input_pins)
      then (some no_input_pin, p)
      else if not (can_connect_pins fits s k c (values p.connections))
      then (some cannot_connect, p)
      else (
        none,
        record p { connections = Maps.insert (new_id (keys p.connections)) c p.connections },
      )

  -- The body of the loop of parseConnections, for the ids that are read.
  unfoldable pub add_connection : (source source_pin sink sink_pin : Option ℕ) → Pipeline → Loaded
  unfolding connect_pins
  add_connection source source_pin sink sink_pin p = elim (element_at source p.elements) [
    | none ↦ (some invalid_source, p)
    | some s ↦ elim (element_at sink p.elements) [
      | none ↦ (some invalid_sink, p)
      | some k ↦ connect_pins s k source source_pin sink sink_pin p
    ]
  ]
