-- ===== src/Client/Frames.antt =====
-- src/plvtcpserver/TCPServerProcessor.cpp (process) and src/plvtcpserver/TCPClientProducer.cpp
-- (readData, parseFrame): the frames that a server writes are those that a client reads.
use parlevision.Base.{
  ℕ, suc, ◌<◌, ◌^◌, ◌≡◌, refl, ap, ◌∙◌, true, List, [], ◌∷◌, ◌++◌, some, if◌then◌else◌, length, map,
  append_assoc, append-nil, arith,
}
use parlevision.Protocol.{DataStream, IsDataStream, proto_frame, receive_all}
use parlevision.Protocol.Chunks.{receive_all-messages}
use parlevision.Protocol.Messages.{flatten, Format, messages, effects, IsProtocol}
use parlevision.Client.{
  Client, ack_bytes, ack_frame, parse_arguments, parse_frame, handle, arguments_bytes, frame_block,
}

module _ {V : Type 0} (ds : DataStream V) where
  -- What a frame carries: its number, and the valid values on the input pins of the server. There
  -- is at least one, and all of it fits in 31 bits.
  pub record Frame : Type 0 where
    pub number : ℕ
    pub values : List V
    pub number-fits : number < 2 ^ 32
    pub count-fits : length values < 2 ^ 32
    pub some_value : 0 < length values
    pub size-fits :
        length (
          ds.word proto_frame
          ++ (ds.word number ++ (ds.word (length values) ++ arguments_bytes ds (map some values))))
        < 2 ^ 31

  abbrev body : Frame → List ℕ
  body f = ds.word f.number ++ (ds.word (length f.values) ++ arguments_bytes ds (map some f.values))

  -- The client acknowledges the frame and puts its values into the list of frames.
  abbrev pub accept : Frame → Client V → Client V
  accept f c = record c {
    frame_list = c.frame_list ++ f.values ∷ [];
    sent = if c.is_writable then c.sent ++ ack_bytes ds f.number else c.sent;
  }

  parse_arguments-arguments_bytes :
      (vs : List V) (rest : List ℕ)
      → IsDataStream ds
      → parse_arguments ds (length vs) (arguments_bytes ds (map some vs) ++ rest) ≡ (some vs, rest)
  unfolding parse_arguments
  parse_arguments-arguments_bytes [] rest d = refl
  parse_arguments-arguments_bytes (v ∷ vs) rest d =
      let first : ds.unvariant (arguments_bytes ds (map some (v ∷ vs)) ++ rest)
          ≡ (some v, arguments_bytes ds (map some vs) ++ rest) =
        ap ds.unvariant (append_assoc (ds.variant (some v)) (arguments_bytes ds (map some vs)) rest)
        ∙ d.unvariant-variant (some v) (arguments_bytes ds (map some vs) ++ rest) in
      ground (arith, first, parse_arguments-arguments_bytes vs rest d)

  handle-accept :
      (f : Frame) (size : ℕ) (rest : List ℕ) (c : Client V)
      → IsDataStream ds
      → handle ds proto_frame size (body f ++ rest) c ≡ (rest, accept f c)
  unfolding handle parse_frame ack_frame
  handle-accept f size rest c d =
      let arguments = arguments_bytes ds (map some f.values) in
      let number : ds.unword (body f ++ rest)
          ≡ (f.number, (ds.word (length f.values) ++ arguments) ++ rest) =
        ap ds.unword (append_assoc (ds.word f.number) (ds.word (length f.values) ++ arguments) rest)
        ∙ d.unword-word f.number ((ds.word (length f.values) ++ arguments) ++ rest) f.number-fits in
      let count : ds.unword ((ds.word (length f.values) ++ arguments) ++ rest)
          ≡ (length f.values, arguments ++ rest) =
        ap ds.unword (append_assoc (ds.word (length f.values)) arguments rest)
        ∙ d.unword-word (length f.values) (arguments ++ rest) f.count-fits in
      ground (arith, number, count, f.some_value, parse_arguments-arguments_bytes f.values rest d)

  abbrev pub blocks : List Frame → List ℕ
  blocks [] = []
  blocks (f ∷ fs) = frame_block ds f.number (map some f.values) ++ blocks fs

  abbrev pub acks : List Frame → List ℕ
  acks [] = []
  acks (f ∷ fs) = ack_bytes ds f.number ++ acks fs

  abbrev pub all_values : List Frame → List (List V)
  all_values [] = []
  all_values (f ∷ fs) = f.values ∷ all_values fs

  -- The frames as messages.
  abbrev frame_format : Format V (Client V) Frame
  frame_format = record {
    coding = ds;
    handle = handle ds;
    opcode = proto_frame;
    body = body;
    effect = accept;
  }

  length-map : (vs : List V) → length (map (λ v. some v) vs) ≡ length vs
  length-map [] = refl
  length-map (v ∷ vs) = ap suc (length-map vs)

  blocks-messages : (fs : List Frame) → blocks fs ≡ messages frame_format fs
  unfolding frame_block
  blocks-messages [] = refl
  blocks-messages (f ∷ fs) = rw (length-map f.values, blocks-messages fs)

  effects-accept :
      (fs : List Frame) (c : Client V)
      → c.is_writable ≡ true
      → effects frame_format fs c
        ≡ record c { frame_list = c.frame_list ++ all_values fs; sent = c.sent ++ acks fs }
  effects-accept [] c w = rw (append-nil c.frame_list, append-nil c.sent)
  effects-accept (f ∷ fs) c w =
      effects-accept fs (accept f c) w
      ∙ ground (
        arith,
        append_assoc c.frame_list (f.values ∷ []) (all_values fs),
        append_assoc c.sent (ack_bytes ds f.number) (acks fs),
      )

  IsProtocol-frame : IsDataStream ds → IsProtocol frame_format
  IsProtocol-frame d = record {
    stream = d;
    opcode-fits = omega arith;
    size-fits = λ f. f.size-fits;
    handled = λ f rest c. handle-accept f (length (ds.word proto_frame ++ body f)) rest c d;
  }

  -- The frames that a server writes, with a coding that reads what it wrote, however the network
  -- cuts their bytes into pieces: when all have come in, a client that can write to its socket has
  -- the values of each frame in its list, in order, has written one acknowledgement for each, in
  -- order, and waits for a new message.
  pub receive_all-blocks :
      (chunks : List (List ℕ)) (fs : List Frame) (c : Client V)
      → IsDataStream ds
      → c.is_writable ≡ true
      → flatten chunks ≡ blocks fs
      → receive_all ds (handle ds) chunks (record { block_size = 0; buffer = []; state = c })
        ≡ some (record {
          block_size = 0;
          buffer = [];
          state = record c { frame_list = c.frame_list ++ all_values fs; sent = c.sent ++ acks fs };
        })
  receive_all-blocks chunks fs c d w e =
      receive_all-messages frame_format chunks fs c (IsProtocol-frame d) (e ∙ blocks-messages fs)
      ∙ ap (λ x. some (record { block_size = 0; buffer = []; state = x })) (effects-accept fs c w)
