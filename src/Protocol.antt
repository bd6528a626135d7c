-- ===== src/Protocol.antt =====
-- The messages between a server and its clients: the loops over the messages in a socket of
-- src/plvtcpserver/TCPClientProducer.cpp (readData) and src/plvtcpserver/ServerConnection.cpp
-- (readyRead), which differ only in what they do with a message. The coding of words and of
-- values, QDataStream of Qt, is a parameter.
pub mod Messages
pub mod Rounds
pub mod Chunks
pub mod BigEndian
use parlevision.Base.{
  ℕ, zero, suc, ◌+◌, ◌-◌, ◌<◌, ◌^◌, ◌≡◌, Bool, true, false, List, [], ◌∷◌, ◌++◌, Option, none, some,
  ◌==◌, ltb, leb, if◌then◌else◌, length,
}

-- PROTO_FRAME, PROTO_INIT and PROTO_ACK of src/plvtcpserver/Proto.h
abbrev pub proto_frame : ℕ
proto_frame = 0

abbrev pub proto_init : ℕ
proto_init = 1

abbrev pub proto_ack : ℕ
proto_ack = 3

-- QDataStream: word and unword are the operators << and >> on a quint32, variant and unvariant
-- those on a QVariant, where `none` is an invalid QVariant. Bytes are numbers.
pub record DataStream (V : Type 0) : Type 0 where
  pub word : ℕ → List ℕ
  pub unword : List ℕ → ℕ × List ℕ
  pub variant : Option V → List ℕ
  pub unvariant : List ℕ → Option V × List ℕ

-- What is documented: a quint32 takes four bytes, and what was written is read again.
pub record IsDataStream {V : Type 0} (ds : DataStream V) : Type 0 where
  pub length-word : (n : ℕ) → length (ds.word n) ≡ 4
  pub unword-word : (n : ℕ) (rest : List ℕ) → n < 2 ^ 32 → ds.unword (ds.word n ++ rest) ≡ (n, rest)
  pub unvariant-variant :
      (v : Option V) (rest : List ℕ) → ds.unvariant (ds.variant v ++ rest) ≡ (v, rest)

-- m_blockSize, which is an int, so that only sizes below 2 ^ 31 are read as they were written; the
-- bytes in the socket that are not read; and what a message changes.
pub record Reader (A : Type 0) : Type 0 where
  pub block_size : ℕ
  pub buffer : List ℕ
  pub state : A

-- What is done with a message: from the opcode, m_blockSize and the bytes behind the opcode to
-- the bytes that are left.
abbrev pub Handler : Type 0 → Type 0
Handler A = (opcode block_size : ℕ) → List ℕ → A → List ℕ × A

module _ {V A : Type 0} (ds : DataStream V) (handle : Handler A) where
  -- The loop while( data ), on fuel.
  pub read_loop : (fuel : ℕ) → Reader A → Option (Reader A)
  read_loop zero r = none
  read_loop (suc fuel) r =
      let (opcode, body) = ds.unword r.buffer in
      let (rest, a) = handle opcode r.block_size body r.state in
      let (size, more) = ds.unword rest in
      let next : Reader A = record { block_size = size; buffer = more; state = a } in
      let later = read_loop fuel next in
      if leb 4 (length rest)
      then if ltb (length more) size then some next else later
      else some (record { block_size = 0; buffer = rest; state = a })

  -- The part of readData behind the first test.
  pub read_block : Reader A → Option (Reader A)
  unfolding read_loop
  read_block r =
      if ltb (length r.buffer) r.block_size then some r else read_loop (suc (length r.buffer)) r

  -- readData, readyRead
  pub read : Reader A → Option (Reader A)
  unfolding read_block
  read r =
      if r.block_size == 0
      then if ltb (length r.buffer) 4
        then some r
        else read_block
            (record r { block_size = (ds.unword r.buffer).0; buffer = (ds.unword r.buffer).1 })
      else read_block r

  -- The signal readyRead of the socket, with the bytes that have come in.
  pub receive : List ℕ → Reader A → Option (Reader A)
  unfolding read
  receive bytes r = read (record r { buffer = r.buffer ++ bytes })

  unfoldable pub receive_all : List (List ℕ) → Reader A → Option (Reader A)
  unfolding receive
  receive_all [] r = some r
  receive_all (bytes ∷ chunks) r = elim (receive bytes r) [
    | none ↦ none
    | some next ↦ receive_all chunks next
  ]
