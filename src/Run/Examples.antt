-- ===== src/Run/Examples.antt =====
-- A running processor (element 1) with the synchronous input pins 0 and 1. A null item waits at
-- pin 1.
use parlevision.Base.{
  ℕ, ◌≡◌, refl, Bool, true, false, List, [], ◌∷◌, none, some, ◌==◌, if◌then◌else◌, ◌⊎◌, arith,
}
use parlevision.Connection.{Data, data_of, null_data}
use parlevision.Store.{Store, typed_input, typed_output, running, update}
use parlevision.Store.Monad.{M, ok, aborted, ◌>>=◌, ◌>>◌, pure}
use parlevision.Consumer.{required_input_pins_connected}
use parlevision.Run.{pre_output, post_output, process_run}
use parlevision.Run.Null.{any_null, Quiet, process_run-null}
use parlevision.Consumer.Flush.{feeds_any, Apart, Drained}

abbrev items : ℕ → List (Data ℕ)
items c = if c == 0 then data_of 7 40 ∷ [] else null_data 7 ∷ []

abbrev half_null : Store ℕ
half_null = record {
  inputs = λ i. record {
    owner = 1;
    required = true;
    synchronous = true;
    guaranteed = true;
    kind = typed_input;
    type_id = 2;
    connection = some i;
    called = false;
  };
  outputs =
      λ o. record { owner = 1; kind = typed_output; type_id = 2; connections = []; called = false };
  connections = λ c. record { producer = none; consumer = some c; queue = items c };
  elements = λ e. record {
    inputs = 0 ∷ 1 ∷ [];
    outputs = 0 ∷ [];
    has_asynchronous_pin = false;
    has_synchronous_pin = true;
    scoreboard = record { pincount = 2; rows = [] };
    serial = 6;
    state = running;
  };
  ready = λ e. none;
}

-- A process that would end the program.
abbrev fatal : M ℕ Bool
fatal s = (aborted, s)

linked : required_input_pins_connected half_null (0 ∷ 1 ∷ []) ≡ true
unfolding required_input_pins_connected
linked = refl

apart : Apart half_null.inputs (0 ∷ 1 ∷ [])
apart = (λ x e. ground (arith, e), (λ x e. refl, tt))

abbrev begun : Store ℕ
begun = record half_null {
  elements = update half_null.elements 1 (record (half_null.elements 1) { serial = 7 });
}

process_run-null_example :
    (t : Store ℕ) × Quiet begun t
    × ((any_null half_null (0 ∷ 1 ∷ []) ≡ true
          × (u : Store ℕ) × Drained (λ x. feeds_any half_null.inputs x (0 ∷ 1 ∷ [])) t u
          × ((process : M ℕ Bool)
              → process_run process 1 7 half_null
                ≡ (do pre_output (0 ∷ []); post_output (0 ∷ []); pure true) u))
        ⊎ (any_null half_null (0 ∷ 1 ∷ []) ≡ false
            × ((process : M ℕ Bool)
                → process_run process 1 7 half_null
                  ≡ (do pre_output (0 ∷ []); result ← process; post_output (0 ∷ []); pure result)
                      t)))
process_run-null_example =
    process_run-null 1 7 7 half_null linked refl apart (λ h. refl, (λ h. refl, tt))

-- So it does not end, and the null item and the other are gone.
thrown_away :
    ((process_run fatal 1 7 half_null).0 ≡ ok true)
    × (((process_run fatal 1 7 half_null).1.connections 0).queue ≡ [])
    × (((process_run fatal 1 7 half_null).1.connections 1).queue ≡ [])
unfolding process_run
thrown_away = (refl, refl, refl)
