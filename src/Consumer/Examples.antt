-- ===== src/Consumer/Examples.antt =====
-- A consumer (element 1) with the synchronous input pins 0 and 1, fed by the connections 0 and 1.
use parlevision.Base.{
  ℕ, ◌≡◌, refl, true, false, List, [], ◌∷◌, none, some, ◌==◌, if◌then◌else◌, arith,
}
use parlevision.Connection.{Data, data_of, null_data}
use parlevision.Store.{Store, Element, typed_input, typed_output, started}
use parlevision.Store.Monad.{ok, throws, runtime_error}
use parlevision.Consumer.{get_variant}
use parlevision.Consumer.Availability.{data_available, ready}
use parlevision.Consumer.Availability.Serials.{data_available-ready}
use parlevision.Consumer.Protocol.{get_variant_once}
use parlevision.Consumer.Flush.{
  flush_first_on_synchronous_pins, flush_first_on_synchronous_pins-Drained,
}

abbrev join_element : Element
join_element = record {
  inputs = 0 ∷ 1 ∷ [];
  outputs = [];
  has_asynchronous_pin = false;
  has_synchronous_pin = true;
  scoreboard = record { pincount = 2; rows = [] };
  serial = 6;
  state = started;
}

abbrev waiting : ℕ → List (Data ℕ)
waiting c = if c == 0 then data_of 7 40 ∷ data_of 8 41 ∷ [] else null_data 7 ∷ []

abbrev join_store : Store ℕ
join_store = record {
  inputs = λ i. record {
    owner = 1;
    required = true;
    synchronous = true;
    guaranteed = true;
    kind = typed_input;
    type_id = 2;
    connection = some i;
    called = false;
  };
  outputs =
      λ o. record { owner = 0; kind = typed_output; type_id = 2; connections = []; called = false };
  connections = λ c. record { producer = none; consumer = some c; queue = waiting c };
  elements = λ e. join_element;
  ready = λ e. none;
}

data_available-ready_example : data_available join_store join_element ≡ ready 7
data_available-ready_example =
    (data_available-ready join_store join_element 7 refl).1 (refl, (λ e. refl, (λ e. refl, tt)))

get_variant_once_example :
    get_variant 0 (get_variant 0 join_store).1
    ≡ (throws runtime_error, (get_variant 0 join_store).1)
get_variant_once_example = (get_variant_once 0 join_store).0

flush_first_on_synchronous_pins-Drained_example :
    (flush_first_on_synchronous_pins (0 ∷ 1 ∷ []) join_store).0 ≡ ok tt
flush_first_on_synchronous_pins-Drained_example =
    (flush_first_on_synchronous_pins-Drained (0 ∷ 1 ∷ []) 7 join_store
      (λ x e. ground arith, (λ x e. refl, tt)) (λ e. refl, (λ e. refl, tt))).0
