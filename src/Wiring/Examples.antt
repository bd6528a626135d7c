-- ===== src/Wiring/Examples.antt =====
-- An output pin at 0 and an input pin at 0, of two elements, with the same type.
use parlevision.Base.{
  ℕ, ◌≡◌, refl, Bool, true, false, [], ◌∷◌, some, none, contains, ◌==◌, ◌∙◌, ap, if◌then◌else◌,
  Bool-cases, inl, inr, arith,
}
use parlevision.Scoreboard
use parlevision.Store.{Store, typed_input, typed_output, undefined}
use parlevision.Store.Monad.{ok}
use parlevision.Wiring.{new_connection, can_connect_pins}
use parlevision.Wiring.Links.{IsWired, IsUnused, Leaves, new_connection-IsWired}
use parlevision.Wiring.Removal.{Wires, remove_connections_for_element}
use parlevision.Wiring.Removal.Clears.{IsKept, Fewer, remove_connections_for_element-IsKept}
use parlevision.Wiring.Objections.{objection, can_connect_pins-new_connection}

abbrev any_type : ℕ → Bool
any_type n = true

abbrev loose : Store ℕ
loose = record {
  inputs = λ i. record {
    owner = 1;
    required = true;
    synchronous = true;
    guaranteed = true;
    kind = typed_input;
    type_id = 2;
    connection = none;
    called = false;
  };
  outputs =
      λ o. record { owner = 0; kind = typed_output; type_id = 2; connections = []; called = false };
  connections = λ c. record { producer = none; consumer = none; queue = [] };
  elements = λ e. record {
    inputs = [];
    outputs = [];
    has_asynchronous_pin = false;
    has_synchronous_pin = false;
    scoreboard = Scoreboard.new;
    serial = 0;
    state = undefined;
  };
  ready = λ e. none;
}

loose-IsWired : IsWired loose
loose-IsWired = record {
  input_wired = λ i c e. cc;
  output_wired = λ o c e. cc;
  once = λ o c. ground arith;
}

loose-IsUnused : (c : ℕ) → IsUnused c loose
loose-IsUnused c = record { no_input = λ i e. cc; no_output = λ o. refl }

abbrev joined : Store ℕ
joined = (new_connection any_type 5 0 0 loose).1

can_connect_pins-new_connection_example :
    ((can_connect_pins any_type 0 0 loose).0 ≡ ok true)
    × ((new_connection any_type 5 0 0 loose).0 ≡ ok tt)
can_connect_pins-new_connection_example = can_connect_pins-new_connection any_type loose 5 0 0

new_connection-IsWired_example :
    IsWired joined
    × Leaves (objection any_type (loose.outputs 0) (loose.inputs 0)) 5 0 0 loose joined
new_connection-IsWired_example =
    new_connection-IsWired any_type loose 5 0 0 loose-IsWired (loose-IsUnused 5)

abbrev wires : Wires ℕ
wires = record { known = λ c. 5 == c; store = joined }

joined-connection : (i : ℕ) → (joined.inputs i).connection ≡ (if 0 == i then some 5 else none)
unfolding new_connection
joined-connection i = elim (Bool-cases (0 == i)) [ inl y ↦ rw y refl | inr z ↦ rw z refl ]

wires-IsKept : IsKept wires
wires-IsKept = record {
  wired = new_connection-IsWired_example.0;
  all_known = λ i c e. ground (arith, e, joined-connection i);
  all_connected = λ c h. (0, joined-connection 0 ∙ ap some (ground (arith, h)));
}

remove_connections_for_element-IsKept_example :
    (u : Wires ℕ) × (remove_connections_for_element (7 ∷ []) (0 ∷ []) wires ≡ some u)
    × IsKept u
    × Fewer wires u
    × ((q : ℕ) → contains q (7 ∷ []) ≡ true → (u.store.inputs q).connection ≡ none)
    × ((o : ℕ)
        → contains o (0 ∷ []) ≡ true
        → (d : ℕ) → contains d (u.store.outputs o).connections ≡ false)
remove_connections_for_element-IsKept_example =
    remove_connections_for_element-IsKept (7 ∷ []) (0 ∷ []) wires wires-IsKept
