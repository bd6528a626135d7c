-- ===== src/Server/Exchanges.antt =====
-- A connection with one frame in its queue, whose socket takes five bytes and then the rest, and a
-- client that reads them in two pieces and answers in one.
use parlevision.Base.{
  ℕ, ◌≡◌, refl, Bool, true, false, List, [], ◌∷◌, ◌++◌, some, arith, take, drop, replicate,
}
use parlevision.Protocol.{Reader, receive_all}
use parlevision.Protocol.BigEndian.{big_endian, big_endian-IsDataStream}
use parlevision.Client
use parlevision.Client.{Client, ack_bytes, frame_block}
use parlevision.Client.Frames.{Frame, blocks}
use parlevision.Server.{ServerConnection, send_data}
use parlevision.Server.Acks.{handle, receive_all-acks}
use parlevision.Server.Exchange.{queued, exchange-completes}

abbrev one_frame : List (Frame big_endian)
one_frame =
    record {
      number = 7;
      values = true ∷ false ∷ [];
      number-fits = omega arith;
      count-fits = omega arith;
      some_value = omega arith;
      size-fits = omega arith;
    }
    ∷ []

abbrev connection : List ℕ → ServerConnection
connection in_flight = record {
  is_open = true;
  is_connected = true;
  waiting = false;
  lossless = true;
  max_frames_in_queue = 3;
  max_frames_in_flight = 2;
  frame_queue = queued big_endian one_frame;
  in_flight = in_flight;
  wire = [];
}

abbrev client : Client Bool
client = record { frame_list = []; sent = []; is_writable = true }

abbrev pieces : List (List ℕ)
pieces = take 6 (blocks big_endian one_frame) ∷ drop 6 (blocks big_endian one_frame) ∷ []

receive_all-acks_example :
    receive_all big_endian
      (handle big_endian)
      (take 5 (ack_bytes big_endian 8)
        ∷ (drop 5 (ack_bytes big_endian 8) ++ ack_bytes big_endian 9)
        ∷ [])
      (record {
        block_size = 0;
        buffer = [];
        state = record (connection (8 ∷ 9 ∷ 10 ∷ [])) { waiting = true };
      })
    ≡ some (record { block_size = 0; buffer = []; state = connection (10 ∷ []) })
receive_all-acks_example =
    receive_all-acks big_endian
      (take 5 (ack_bytes big_endian 8)
        ∷ (drop 5 (ack_bytes big_endian 8) ++ ack_bytes big_endian 9)
        ∷ [])
      (8 ∷ 9 ∷ []) (10 ∷ []) (record (connection (8 ∷ 9 ∷ 10 ∷ [])) { waiting = true })
      big_endian-IsDataStream (omega arith, (omega arith, tt)) refl refl

exchange-completes_example :
    (d e : ServerConnection) × (r : Reader (Client Bool)) × (send_data
        (some 5 ∷ replicate 18 (some 90))
        (connection [])
      ≡ some d)
    × (receive_all big_endian
          (parlevision.Client.handle big_endian)
          pieces
          (record { block_size = 0; buffer = []; state = client })
        ≡ some r)
    × (r.state.frame_list ≡ (true ∷ false ∷ []) ∷ [])
    × (receive_all big_endian
          (handle big_endian)
          (ack_bytes big_endian 7 ∷ [])
          (record { block_size = 0; buffer = []; state = d })
        ≡ some (record { block_size = 0; buffer = []; state = e }))
    × (e.frame_queue ≡ [])
    × (e.in_flight ≡ [])
unfolding send_data receive_all parlevision.Client.handle frame_block
exchange-completes_example =
    exchange-completes big_endian (some 5 ∷ replicate 18 (some 90)) pieces
      (ack_bytes big_endian 7 ∷ []) one_frame (connection []) client big_endian-IsDataStream refl
      refl refl refl refl refl (omega arith) refl (omega arith) refl refl refl refl
