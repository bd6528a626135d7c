-- ===== src/Protocol/Messages.antt =====
-- Series of messages, for the loops of src/plvtcpserver/TCPClientProducer.cpp (readData) and
-- src/plvtcpserver/ServerConnection.cpp (readyRead): their bytes, their effect, and how far a reader
-- has come.
use parlevision.Base.{
  ℕ, ◌<◌, ◌≤◌, ◌^◌, ◌≡◌, refl, sym, ap, ◌∙◌, Bool, true, false, List, [], ◌∷◌, ◌++◌, ◌==◌, ltb, leb,
  if◌then◌else◌, length, length-append, append_assoc, arith,
}
use parlevision.Protocol.{DataStream, IsDataStream, Reader, Handler}

-- The first list of a concatenation is a piece of a list that is long enough.
pub split_prefix :
    (us vs xs ys : List ℕ)
    → xs ++ ys ≡ us ++ vs
    → length us ≤ length xs
    → (zs : List ℕ) × (xs ≡ us ++ zs) × (zs ++ ys ≡ vs)
split_prefix [] vs xs ys e h = (xs, refl, e)
split_prefix (u ∷ us) vs [] ys e h = absurd (omega (arith, h))
split_prefix (u ∷ us) vs (x ∷ xs) ys e h =
    let same : x ≡ u = cc in
    let (zs, f, g) = split_prefix us vs xs ys (cc) (omega (arith, h)) in (zs, rw (same, f) refl, g)

-- The bytes that come in, whatever the pieces.
abbrev pub flatten : List (List ℕ) → List ℕ
flatten [] = []
flatten (bytes ∷ chunks) = bytes ++ flatten chunks

-- A kind of message: its coding, what is done with any message, and, for the messages that are
-- sent, the opcode, what stands behind it, and what a message is to change.
pub record Format (V A Msg : Type 0) : Type 0 where
  pub coding : DataStream V
  pub handle : Handler A
  pub opcode : ℕ
  pub body : Msg → List ℕ
  pub effect : Msg → A → A

module _ {V A Msg : Type 0} (fm : Format V A Msg) where
  -- What stands behind the size of a message.
  abbrev pub content : Msg → List ℕ
  content m = fm.coding.word fm.opcode ++ fm.body m

  -- A message on the wire: its size without the four bytes of the size, its opcode and its body.
  abbrev pub message : Msg → List ℕ
  message m = fm.coding.word (length (content m)) ++ content m

  abbrev pub messages : List Msg → List ℕ
  messages [] = []
  messages (m ∷ ms) = message m ++ messages ms

  abbrev pub effects : List Msg → A → A
  effects [] a = a
  effects (m ∷ ms) a = effects ms (fm.effect m a)

  -- What the proofs need of the coding: sizes and opcodes fit in a word, and a message is handled
  -- by its effect, whatever comes behind it.
  pub record IsProtocol : Type 0 where
    pub stream : IsDataStream fm.coding
    pub opcode-fits : fm.opcode < 2 ^ 32
    pub size-fits : (m : Msg) → length (content m) < 2 ^ 31
    pub handled :
        (m : Msg) (rest : List ℕ) (a : A)
        → fm.handle fm.opcode (length (content m)) (fm.body m ++ rest) a ≡ (rest, fm.effect m a)

  -- The bytes that are read in part or not at all.
  abbrev pub unread : Reader A → List ℕ
  unread r = if r.block_size == 0 then r.buffer else fm.coding.word r.block_size ++ r.buffer

  -- A reader that has to wait for more bytes.
  abbrev pub waits : Reader A → Bool
  waits r =
      if r.block_size == 0 then ltb (length r.buffer) 4 else ltb (length r.buffer) r.block_size

  -- The reader handled a first part of the messages, and waits for the rest of them.
  pub record Progress (ms : List Msg) (future : List ℕ) (a : A) (r : Reader A) : Type 0 where
    pub handled_part : List Msg
    pub open_part : List Msg
    pub parts : ms ≡ handled_part ++ open_part
    pub done : r.state ≡ effects handled_part a
    pub left : unread r ++ future ≡ messages open_part
    pub idle : waits r ≡ true
    pub bounded : r.block_size < 2 ^ 32

  pub content-nonempty : (m : Msg) → IsProtocol → (length (content m) == 0) ≡ false
  content-nonempty m p =
      ground (
        arith,
        length-append (fm.coding.word fm.opcode) (fm.body m),
        p.stream.length-word fm.opcode,
      )

  pub size-fits_word : (m : Msg) → IsProtocol → length (content m) < 2 ^ 32
  size-fits_word m p = below (length (content m)) (p.size-fits m)
    where
      below : (n : ℕ) → n < 2 ^ 31 → n < 2 ^ 32
      below n h = omega (arith, h)

  -- The size of the next message is read.
  pub read_size :
      (m : Msg) (rest : List ℕ)
      → IsProtocol
      → fm.coding.unword (fm.coding.word (length (content m)) ++ rest) ≡ (length (content m), rest)
  read_size m rest p = p.stream.unword-word (length (content m)) rest (size-fits_word m p)

  -- The bytes of the next message, of which at least the size is there.
  pub next_message :
      (m : Msg) (ms : List Msg) (rest future : List ℕ)
      → IsProtocol
      → rest ++ future ≡ messages (m ∷ ms)
      → leb 4 (length rest) ≡ true
      → (more : List ℕ) × (rest ≡ fm.coding.word (length (content m)) ++ more)
        × (more ++ future ≡ content m ++ messages ms)
  next_message m ms rest future p e h =
      split_prefix (fm.coding.word (length (content m))) (content m ++ messages ms) rest future
        (e ∙ append_assoc (fm.coding.word (length (content m))) (content m) (messages ms))
        (ground (arith, p.stream.length-word (length (content m))))

  -- What is left of the messages behind the first one.
  pub step_back :
      (m : Msg) (ms : List Msg) (future : List ℕ) (a : A) (r : Reader A)
      → Progress ms future (fm.effect m a) r
      → Progress (m ∷ ms) future a r
  step_back m ms future a r q = record {
    handled_part = m ∷ q.handled_part;
    open_part = q.open_part;
    parts = ap (λ l. m ∷ l) q.parts;
    done = q.done;
    left = q.left;
    idle = q.idle;
    bounded = q.bounded;
  }

  pub nothing_yet :
      (ms : List Msg) (future : List ℕ) (r : Reader A)
      → unread r ++ future ≡ messages ms
      → waits r ≡ true
      → r.block_size < 2 ^ 32
      → Progress ms future r.state r
  nothing_yet ms future r e h b = record {
    handled_part = [];
    open_part = ms;
    parts = refl;
    done = refl;
    left = e;
    idle = h;
    bounded = b;
  }

  -- A size that was read before is that of the next message.
  pub pending_size :
      (n : ℕ) (ms : List Msg) (buffer future : List ℕ)
      → IsProtocol
      → n < 2 ^ 32
      → (fm.coding.word n ++ buffer) ++ future ≡ messages ms
      → (m : Msg) × (rest : List Msg) × (ms ≡ m ∷ rest)
        × (n ≡ length (content m))
        × (buffer ++ future ≡ content m ++ messages rest)
  pending_size n [] buffer future p b e = absurd (
      omega (
        arith,
        ap length e,
        length-append (fm.coding.word n ++ buffer) future,
        length-append (fm.coding.word n) buffer,
        p.stream.length-word n,
      ))
  pending_size n (m ∷ rest) buffer future p b e =
      let both : (n, buffer ++ future) ≡ (length (content m), content m ++ messages rest) =
        sym (p.stream.unword-word n (buffer ++ future) b)
        ∙ ap fm.coding.unword (
            sym (append_assoc (fm.coding.word n) buffer future)
            ∙ e
            ∙ append_assoc (fm.coding.word (length (content m))) (content m) (messages rest))
        ∙ read_size m (content m ++ messages rest) p in
      (m, rest, refl, ap (λ (x : ℕ × List ℕ). x.0) both, ap (λ (x : ℕ × List ℕ). x.1) both)

  pub effects-append : (ms ns : List Msg) (a : A) → effects (ms ++ ns) a ≡ effects ns (effects ms a)
  effects-append [] ns a = refl
  effects-append (m ∷ ms) ns a = effects-append ms ns (fm.effect m a)
