-- ===== src/Server/Acks.antt =====
-- src/plvtcpserver/ServerConnection.cpp (readyRead) with the acknowledgements that the client of
-- src/plvtcpserver/TCPClientProducer.cpp (ackFrame) writes.
use parlevision.Base.{
  ℕ, ◌-◌, ◌<◌, ◌^◌, ◌≡◌, refl, ap, ◌∙◌, Bool, ◌&&◌, List, [], ◌∷◌, ◌++◌, Option, some, ◌==◌,
  if◌then◌else◌, length, length-append, is_empty, not, drop, arith, All,
}
use parlevision.Protocol.{
  DataStream, IsDataStream, Reader, Handler, proto_ack, receive, receive_all,
}
use parlevision.Protocol.Chunks.{receive_all-messages}
use parlevision.Protocol.Messages.{flatten, Format, messages, effects, IsProtocol}
use parlevision.Server.{ServerConnection, ack_frame}
use parlevision.Client.{ack_bytes}

module _ {V : Type 0} (ds : DataStream V) where
  -- The switch in readyRead. A negative number of bytes is not skipped.
  pub handle : Handler ServerConnection
  unfolding ack_frame
  handle opcode block_size bytes c =
      if opcode == proto_ack
      then (let (serial, rest) = ds.unword bytes in (rest, ack_frame serial c))
      else (drop (block_size - 4) bytes, c)

  -- ServerConnection::readyRead, at new bytes in the socket.
  pub ready_read : List ℕ → Reader ServerConnection → Option (Reader ServerConnection)
  unfolding handle
  ready_read bytes r = receive ds handle bytes r

  abbrev pub ack_blocks : List ℕ → List ℕ
  ack_blocks [] = []
  ack_blocks (n ∷ ns) = ack_bytes ds n ++ ack_blocks ns

  -- The number of a frame, which fits in a word.
  record Serial : Type 0 where
    number : ℕ
    fits : number < 2 ^ 32

  abbrev body : Serial → List ℕ
  body s = ds.word s.number

  abbrev effect : Serial → ServerConnection → ServerConnection
  effect s c = ack_frame s.number c

  -- The acknowledgements as messages.
  abbrev ack_format : Format V ServerConnection Serial
  ack_format = record {
    coding = ds;
    handle = handle;
    opcode = proto_ack;
    body = body;
    effect = effect;
  }

  length-ack : (n : ℕ) → IsDataStream ds → length (ds.word proto_ack ++ ds.word n) ≡ 8
  length-ack n d = omega (
    arith,
    length-append (ds.word proto_ack) (ds.word n),
    d.length-word n,
    d.length-word proto_ack,
  )

  handle-ack_frame :
      (s : Serial) (size : ℕ) (rest : List ℕ) (c : ServerConnection)
      → IsDataStream ds
      → handle proto_ack size (body s ++ rest) c ≡ (rest, effect s c)
  unfolding handle
  handle-ack_frame s size rest c d = rw (d.unword-word s.number rest s.fits)

  IsProtocol-ack : IsDataStream ds → IsProtocol ack_format
  IsProtocol-ack d = record {
    stream = d;
    opcode-fits = omega arith;
    size-fits = λ s. omega (arith, length-ack s.number d);
    handled = λ s rest c. handle-ack_frame s (length (ds.word proto_ack ++ body s)) rest c d;
  }

  abbrev serials : (ns : List ℕ) → All (λ n. n < 2 ^ 32) ns → List Serial
  serials [] h = []
  serials (n ∷ ns) h = record { number = n; fits = h.0 } ∷ serials ns h.1

  ack_blocks-messages :
      (ns : List ℕ) (h : All (λ n. n < 2 ^ 32) ns)
      → IsDataStream ds
      → ack_blocks ns ≡ messages ack_format (serials ns h)
  ack_blocks-messages [] h d = refl
  ack_blocks-messages (n ∷ ns) h d = rw (length-ack n d, ack_blocks-messages ns h.1 d)

  -- What an acknowledgement does to waiting.
  abbrev acknowledged : List ℕ → ServerConnection → Bool
  acknowledged ns c = c.waiting && not (c.lossless && not (is_empty ns))

  effects-ack_frame :
      (ns : List ℕ) (later : List ℕ) (c : ServerConnection) (h : All (λ n. n < 2 ^ 32) ns)
      → c.in_flight ≡ ns ++ later
      → effects ack_format (serials ns h) c
        ≡ record c { in_flight = later; waiting = acknowledged ns c }
  unfolding ack_frame
  effects-ack_frame [] later c h e = ground (arith, e)
  effects-ack_frame (n ∷ ns) later c h e =
      effects-ack_frame ns later (ack_frame n c) h.1 (ground (arith, e)) ∙ ground (arith, e)

  -- The acknowledgements for the first frames in flight, in order, with a coding that reads what
  -- it wrote, however the network cuts their bytes into pieces: when all have come in, these
  -- frames, whose numbers fit in a word, are no longer in flight, a lossless connection no longer
  -- waits if there was an acknowledgement, and nothing else changes.
  pub receive_all-acks :
      (chunks : List (List ℕ)) (ns later : List ℕ) (c : ServerConnection)
      → IsDataStream ds
      → All (λ n. n < 2 ^ 32) ns
      → c.in_flight ≡ ns ++ later
      → flatten chunks ≡ ack_blocks ns
      → receive_all ds handle chunks (record { block_size = 0; buffer = []; state = c })
        ≡ some (record {
          block_size = 0;
          buffer = [];
          state = record c { in_flight = later; waiting = acknowledged ns c };
        })
  receive_all-acks chunks ns later c d h e f =
      receive_all-messages ack_format chunks (serials ns h) c (IsProtocol-ack d)
        (f ∙ ack_blocks-messages ns h d)
      ∙ ap (λ x. some (record { block_size = 0; buffer = []; state = x }))
          (effects-ack_frame ns later c h e)
