-- ===== src/Delivery/Frame.antt =====
-- What a delivery leaves alone.
use parlevision.Base.{ℕ, ◌≡◌, refl, Option, none, some, arith}
use parlevision.Connection.{Data, push}
use parlevision.Store.{Store, update}
use parlevision.Delivery.{pipeline_data_consumer_ready, new_data, accept_data, put}
use parlevision.Store.Monad.{pointed, ◌>>=◌}

module _ {V : Type 0} where
  -- Pins, connections and serials are as before.
  pub record Keeps (s t : Store V) : Type 0 where
    pub inputs : t.inputs ≡ s.inputs
    pub outputs : t.outputs ≡ s.outputs
    pub connections : t.connections ≡ s.connections
    pub serials : (e : ℕ) → (t.elements e).serial ≡ (s.elements e).serial

  ready-Keeps : (serial e : ℕ) (s : Store V) → Keeps s (pipeline_data_consumer_ready serial e s).1
  unfolding pipeline_data_consumer_ready
  ready-Keeps serial e s = record {
    inputs = ground arith;
    outputs = ground arith;
    connections = ground arith;
    serials = λ x. ground arith;
  }

  new_data-Keeps : (e q serial : ℕ) (s : Store V) → Keeps s (new_data e q serial s).1
  unfolding new_data
  new_data-Keeps e q serial s = record {
    inputs = ground arith;
    outputs = ground arith;
    connections = ground arith;
    serials = λ x. ground arith;
  }

  accept_data-Keeps : (q : ℕ) (d : Data V) (s : Store V) → Keeps s (accept_data q d s).1
  unfolding accept_data
  accept_data-Keeps q d s = new_data-Keeps (s.inputs q).owner q d.serial s

  consumer-Keeps :
      (consumer : Option ℕ) (d : Data V) (s : Store V)
      → Keeps s ((pointed consumer >>= λ q. accept_data q d) s).1
  consumer-Keeps none d s = record {
    inputs = refl;
    outputs = refl;
    connections = refl;
    serials = λ e. refl;
  }
  consumer-Keeps (some q) d s = accept_data-Keeps q d s

  -- An item was appended to the queue of one connection.
  pub record Delivered (c : ℕ) (d : Data V) (s t : Store V) : Type 0 where
    pub inputs : t.inputs ≡ s.inputs
    pub outputs : t.outputs ≡ s.outputs
    pub connections :
        t.connections
        ≡ update s.connections c
            (record (s.connections c) { queue = push (s.connections c).queue d })
    pub serials : (e : ℕ) → (t.elements e).serial ≡ (s.elements e).serial

  -- So it is after put, whether or not an assertion failed on the way.
  pub put-Delivered : (c : ℕ) (d : Data V) (s : Store V) → Delivered c d s (put c d s).1
  unfolding put
  put-Delivered c d s =
      let k = consumer-Keeps (s.connections c).consumer d (record s { connections = _ }) in
      record {
        inputs = k.inputs;
        outputs = k.outputs;
        connections = k.connections;
        serials = k.serials;
      }
