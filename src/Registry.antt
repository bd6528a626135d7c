-- ===== src/Registry.antt =====
-- The elements of a pipeline under their ids: src/plvcore/Pipeline.cpp (addElement, canAddElement,
-- getNewPipelineElementId, getNewPinConnectionId, getElement, removeElement), and the ids of pins
-- in src/plvcore/DataConsumer.cpp and src/plvcore/DataProducer.cpp (getNextInputPinId,
-- getNextOutputPinId). Ids are natural numbers; -1, which stands for no id, is `none`.
pub mod Maps
pub mod Fresh
pub mod Agreement
mod Examples
use parlevision.Base.{
  ℕ, zero, suc, ◌+◌, Bool, true, false, not, List, [], ◌∷◌, Option, none, some, ◌==◌, ltb,
  if◌then◌else◌, contains,
}
use parlevision.Base.Table.{Table, keys}
use parlevision.Registry.Maps.{insert, remove, value}

-- The classes of elements of which a pipeline keeps a list.
pub data Role : Type 0 where
  producing processing : Role

-- m_children, m_producers, m_processors
pub record Registry : Type 0 where
  pub children : Table Role
  pub producers : Table (Unit {0})
  pub processors : Table (Unit {0})

-- The loop of getNewPipelineElementId, over the keys of the map.
unfoldable pub new_id_from : ℕ → List ℕ → ℕ
new_id_from id [] = id
new_id_from id (k ∷ ks) = if ltb id k then id else new_id_from (id + 1) ks

-- Pipeline::getNewPipelineElementId, and getNewPinConnectionId on the map of the connections.
unfoldable pub new_id : List ℕ → ℕ
unfolding new_id_from
new_id ks = new_id_from 0 ks

-- The loop of getNextInputPinId. `none` is a lack of fuel.
pub next_pin_id_from : (fuel : ℕ) → ℕ → List ℕ → Option ℕ
next_pin_id_from zero id ks = none
next_pin_id_from (suc fuel) id ks =
    let later = next_pin_id_from fuel (id + 1) ks in if contains id ks then later else some id

-- DataConsumer::getNextInputPinId, DataProducer::getNextOutputPinId
pub next_pin_id : (fuel : ℕ) → List ℕ → Option ℕ
unfolding next_pin_id_from
next_pin_id fuel ks = next_pin_id_from fuel 0 ks

-- Pipeline::canAddElement
pub can_add_element : Option ℕ → Registry → Bool
can_add_element none r = true
can_add_element (some id) r = not (contains id (keys r.children))

-- The id that addElement inserts an element under.
pub id_for : Option ℕ → Registry → ℕ
unfolding new_id
id_for none r = new_id (keys r.children)
id_for (some id) r = id

-- Pipeline::addElement. A negative answer of canAddElement is only reported.
pub add_element : Option ℕ → Role → Registry → ℕ × Registry
unfolding id_for
add_element wanted role r =
    let id = id_for wanted r in
    (
      id,
      record {
        children = insert id role r.children;
        producers = elim role [ producing ↦ insert id tt r.producers | processing ↦ r.producers ];
        processors = elim role [
          | producing ↦ r.processors
          | processing ↦ insert id tt r.processors
        ];
      },
    )

-- Pipeline::getElement
pub get_element : ℕ → Registry → Option Role
unfolding value
get_element id r = value id r.children

-- The part of Pipeline::removeElement after removeConnectionsForElement.
pub remove_element : ℕ → Registry → Registry
remove_element id r =
    if contains id (keys r.children)
    then if contains id (keys r.producers)
      then record r { children = remove id r.children; producers = remove id r.producers }
      else if contains id (keys r.processors)
      then record r { children = remove id r.children; processors = remove id r.processors }
      else record r { children = remove id r.children }
    else r
