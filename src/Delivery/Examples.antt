-- ===== src/Delivery/Examples.antt =====
-- A producer (element 0) whose output pin 0 feeds the input pin 0 of element 1.
use parlevision.Base.{
  ℕ, ◌≡◌, ◌≤◌, refl, true, false, List, [], ◌∷◌, some, arith, occurrences, if◌then◌else◌, ◌==◌,
}
use parlevision.Connection.{data_of}
use parlevision.Store.{Store, Element, typed_input, typed_output, started}
use parlevision.Store.Monad.{ok}
use parlevision.Delivery.{put, pre, put_variant, post}
use parlevision.Delivery.Rounds.{round, round_delivers_once}

abbrev element : List ℕ → List ℕ → Element
element ins outs = record {
  inputs = ins;
  outputs = outs;
  has_asynchronous_pin = false;
  has_synchronous_pin = false;
  scoreboard = record { pincount = 1; rows = [] };
  serial = 4;
  state = started;
}

abbrev chain : Store ℕ
chain = record {
  inputs = λ i. record {
    owner = 1;
    required = true;
    synchronous = true;
    guaranteed = true;
    kind = typed_input;
    type_id = 2;
    connection = some 0;
    called = false;
  };
  outputs = λ o. record {
    owner = 0;
    kind = typed_output;
    type_id = 2;
    connections = 0 ∷ [];
    called = true;
  };
  connections = λ c. record { producer = some 0; consumer = some 0; queue = [] };
  elements = λ e. if e == 0 then element [] (0 ∷ []) else element (0 ∷ []) [];
  ready = λ e. some [];
}

round_test : (round 0 4 (some 9) chain).0 ≡ ok tt
unfolding round pre put_variant post put
round_test = refl

chain_once : (x : ℕ) → occurrences x (0 ∷ []) ≤ 1
chain_once x = ground arith

round_delivers_once_example : ((round 0 4 (some 9) chain).1.connections 0).queue ≡ data_of 4 9 ∷ []
round_delivers_once_example = round_delivers_once 0 4 (some 9) chain chain_once refl round_test 0
