-- ===== src/Client/Examples.antt =====
-- Two frames, whose bytes come in pieces that end in the size of the first frame and in the values
-- of the second one.
use parlevision.Base.{ℕ, ◌≡◌, refl, Bool, true, false, List, [], ◌∷◌, ◌++◌, some, arith, take, drop}
use parlevision.Protocol.{receive_all}
use parlevision.Protocol.BigEndian.{big_endian, big_endian-IsDataStream}
use parlevision.Client.{Client, ack_bytes, frame_block, handle}
use parlevision.Client.Matching.{OutputPin, produce, is_distinct, put_names}
use parlevision.Client.Matching.Fits.{puts_fit, produce-fits}
use parlevision.Client.Matching.Counts.{puts_of, values_of, free_pins, least, produce-counts}
use parlevision.Client.Frames.{Frame, blocks, receive_all-blocks}

abbrev frames : List (Frame big_endian)
frames =
    record {
      number = 7;
      values = true ∷ false ∷ [];
      number-fits = omega arith;
      count-fits = omega arith;
      some_value = omega arith;
      size-fits = omega arith;
    }
    ∷ record {
      number = 300;
      values = true ∷ [];
      number-fits = omega arith;
      count-fits = omega arith;
      some_value = omega arith;
      size-fits = omega arith;
    }
    ∷ []

abbrev bytes : List ℕ
bytes = blocks big_endian frames

abbrev pieces : List (List ℕ)
pieces = take 3 bytes ∷ take 31 (drop 3 bytes) ∷ [] ∷ drop 34 bytes ∷ []

abbrev client : Client Bool
client = record { frame_list = (false ∷ []) ∷ []; sent = []; is_writable = true }

receive_all-blocks_example :
    receive_all big_endian
      (handle big_endian)
      pieces
      (record { block_size = 0; buffer = []; state = client })
    ≡ some (record {
      block_size = 0;
      buffer = [];
      state = record client {
        frame_list = (false ∷ []) ∷ (true ∷ false ∷ []) ∷ (true ∷ []) ∷ [];
        sent = ack_bytes big_endian 7 ++ ack_bytes big_endian 300;
      };
    })
unfolding frame_block
receive_all-blocks_example =
    receive_all-blocks big_endian pieces frames client big_endian-IsDataStream refl refl

-- The pins are of type 5, 6 and 5; true is of type 5 and false of type 6.
abbrev user_type : Bool → ℕ
user_type true = 5
user_type false = 6

abbrev pins : List OutputPin
pins =
    record { name = 1; type_id = 5 }
    ∷ record { name = 2; type_id = 6 }
    ∷ record { name = 3; type_id = 5 }
    ∷ []

abbrev filled : List Bool → Client Bool
filled frame = record client { frame_list = frame ∷ (true ∷ []) ∷ [] }

produce-fits_example :
    (puts : List (ℕ × Bool)) × (produce user_type pins (filled (false ∷ false ∷ true ∷ []))
      ≡ some (puts, record client { frame_list = (true ∷ []) ∷ [] }))
    × (is_distinct (put_names puts) ≡ true)
    × (puts_fit user_type puts pins ≡ true)
produce-fits_example =
    produce-fits user_type (false ∷ false ∷ true ∷ []) ((true ∷ []) ∷ []) pins
      (filled (false ∷ false ∷ true ∷ [])) refl

produce-counts_example :
    (puts : List (ℕ × Bool)) × (produce user_type pins (filled (false ∷ false ∷ true ∷ []))
      ≡ some (puts, record client { frame_list = (true ∷ []) ∷ [] }))
    × ((t : ℕ)
        → puts_of user_type t puts
          ≡ least (values_of user_type t (false ∷ false ∷ true ∷ [])) (free_pins t pins []))
produce-counts_example =
    produce-counts user_type (false ∷ false ∷ true ∷ []) ((true ∷ []) ∷ []) pins
      (filled (false ∷ false ∷ true ∷ [])) refl refl
