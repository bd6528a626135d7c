-- ===== src/Client.antt =====
-- A client: src/plvtcpserver/TCPClientProducer.cpp (readData, parseFrame, ackFrame, produce), and
-- the frames that src/plvtcpserver/TCPServerProcessor.cpp (process) writes for it.
pub mod Frames
pub mod Matching
mod Examples
use parlevision.Base.{
  ℕ, zero, suc, ◌+◌, ◌-◌, Bool, true, false, not, ◌&&◌, List, [], ◌∷◌, ◌++◌, Option, none, some,
  ◌==◌, ltb, if◌then◌else◌, length, drop, contains,
}
use parlevision.Protocol.{DataStream, Handler, Reader, proto_frame, proto_init, proto_ack, receive}

-- frame_list: m_frameList. sent: the bytes that were written to the socket. is_writable: whether
-- a write to the socket does not fail.
pub record Client (V : Type 0) : Type 0 where
  pub frame_list : List (List V)
  pub sent : List ℕ
  pub is_writable : Bool

module _ {V : Type 0} (ds : DataStream V) where
  -- The bytes that ackFrame writes.
  abbrev pub ack_bytes : ℕ → List ℕ
  ack_bytes frame_number = ds.word 8 ++ (ds.word proto_ack ++ ds.word frame_number)

  -- TCPClientProducer::ackFrame
  pub ack_frame : ℕ → Client V → Client V
  ack_frame frame_number c =
      if c.is_writable then record c { sent = c.sent ++ ack_bytes frame_number } else c

  -- The loop over the arguments in parseFrame; `none` is an invalid argument.
  pub parse_arguments : ℕ → List ℕ → Option (List V) × List ℕ
  parse_arguments zero bytes = (some [], bytes)
  parse_arguments (suc n) bytes =
      let (v, rest) = ds.unvariant bytes in
      let (vs, left) = parse_arguments n rest in
      elim v [
        | none ↦ (none, rest)
        | some x ↦ (elim vs [ none ↦ none | some xs ↦ some (x ∷ xs) ], left)
      ]

  -- TCPClientProducer::parseFrame. A negative number of bytes is not skipped.
  pub parse_frame : ℕ → List ℕ → Client V → List ℕ × Client V
  unfolding parse_arguments ack_frame
  parse_frame block_size bytes c =
      let (serial, bytes_1) = ds.unword bytes in
      let (numargs, bytes_2) = ds.unword bytes_1 in
      if ltb numargs 1
      then (drop (block_size - 8) bytes_2, c)
      else let (arguments, rest) = parse_arguments numargs bytes_2 in
        elim arguments [
          | none ↦ (rest, c)
          | some frame ↦
              let d = ack_frame serial c in
              (rest, record d { frame_list = d.frame_list ++ frame ∷ [] })
        ]

  -- The switch in readData. m_configured, which nothing sets to false, is left out.
  unfoldable pub handle : Handler (Client V)
  unfolding parse_frame
  handle opcode block_size bytes c =
      if opcode == proto_init
      then (bytes, c)
      else if opcode == proto_frame
      then parse_frame block_size bytes c
      else (drop (block_size - 4) bytes, c)

  -- TCPClientProducer::readData, at new bytes in the socket.
  pub read_data : List ℕ → Reader (Client V) → Option (Reader (Client V))
  unfolding handle
  read_data bytes r = receive ds handle bytes r

  abbrev pub arguments_bytes : List (Option V) → List ℕ
  arguments_bytes [] = []
  arguments_bytes (v ∷ vs) = ds.variant v ++ arguments_bytes vs

  -- The block that TCPServerProcessor::process writes, for the data of the input pins.
  unfoldable pub frame_block : ℕ → List (Option V) → List ℕ
  frame_block frame_number frame_data =
      let content =
        ds.word proto_frame
        ++ (ds.word frame_number ++ (ds.word (length frame_data) ++ arguments_bytes frame_data)) in
      ds.word (length content) ++ content
