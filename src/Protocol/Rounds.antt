-- ===== src/Protocol/Rounds.antt =====
-- The calls of src/plvtcpserver/TCPClientProducer.cpp (readData) and
-- src/plvtcpserver/ServerConnection.cpp (readyRead): each handles the whole messages that are there.
use parlevision.Base.{
  ℕ, zero, suc, ◌+◌, ◌<◌, ◌≤◌, ◌^◌, ◌≡◌, sym, ap, ◌∙◌, subst, true, false, List, [], ◌∷◌, ◌++◌,
  Option, some, ◌==◌, ltb, leb, if◌then◌else◌, length, length-append, append_assoc, arith,
  Bool-cases, inl, inr,
}
use parlevision.Protocol.{Reader, read_loop, read_block, read}
use parlevision.Protocol.Messages.{
  split_prefix, Format, content, messages, IsProtocol, unread, Progress, content-nonempty,
  size-fits_word, read_size, next_message, step_back, nothing_yet, pending_size,
}

module _ {V A Msg : Type 0} (fm : Format V A Msg) where
  -- What a round leaves, in which a message is handled.
  abbrev after_message : ℕ → List ℕ → A → Option (Reader A)
  after_message fuel rest a =
      let next : Reader A = record {
        block_size = (fm.coding.unword rest).0;
        buffer = (fm.coding.unword rest).1;
        state = a;
      } in
      if leb 4 (length rest)
      then if ltb (length next.buffer) next.block_size
        then some next
        else read_loop fm.coding fm.handle fuel next
      else some (record { block_size = 0; buffer = rest; state = a })

  round-after_message :
      (fuel : ℕ) (m : Msg) (rest : List ℕ) (a : A)
      → IsProtocol fm
      → read_loop fm.coding fm.handle
          (suc fuel)
          (record { block_size = length (content fm m); buffer = content fm m ++ rest; state = a })
        ≡ after_message fuel rest (fm.effect m a)
  unfolding read_loop
  round-after_message fuel m rest a p = rw (
    append_assoc (fm.coding.word fm.opcode) (fm.body m) rest,
    p.stream.unword-word fm.opcode (fm.body m ++ rest) p.opcode-fits,
    p.handled m rest a,
  )

  -- The loop, with a whole message in the buffer.
  abbrev Loops : ℕ → Type 0
  Loops fuel =
      (m : Msg) (ms : List Msg) (buffer future : List ℕ) (a : A)
      → length buffer < fuel
      → length (content fm m) ≤ length buffer
      → buffer ++ future ≡ content fm m ++ messages fm ms
      → (r : Reader A) × (read_loop fm.coding fm.handle fuel
            (record { block_size = length (content fm m); buffer = buffer; state = a })
          ≡ some r)
        × Progress fm (m ∷ ms) future a r

  after_message-Progress :
      (fuel : ℕ) (ms : List Msg) (rest future : List ℕ) (a : A)
      → IsProtocol fm
      → Loops fuel
      → length rest ≤ fuel
      → rest ++ future ≡ messages fm ms
      → (r : Reader A) × (after_message fuel rest a ≡ some r) × Progress fm ms future a r
  after_message-Progress fuel ms rest future a p loops h e =
      elim (Bool-cases (leb 4 (length rest))) [
        | inr few ↦
            let r : Reader A = record { block_size = 0; buffer = rest; state = a } in
            (r, rw few, nothing_yet fm ms future r e (ground (arith, few)) (omega arith))
        | inl enough ↦ with_size ms e enough
      ]
    where
      with_size :
          (ms : List Msg)
          → rest ++ future ≡ messages fm ms
          → leb 4 (length rest) ≡ true
          → (r : Reader A) × (after_message fuel rest a ≡ some r) × Progress fm ms future a r
      with_size [] e enough =
          absurd (ground (arith, enough, ap length e, length-append rest future))
      with_size (m ∷ ms) e enough =
          let (more, shape, left) = next_message fm m ms rest future p e enough in
          let size = read_size fm m more p in
          let next : Reader A = record {
            block_size = length (content fm m);
            buffer = more;
            state = a;
          } in
          let taken : length rest ≡ 4 + length more =
            ap length shape
            ∙ length-append (fm.coding.word (length (content fm m))) more
            ∙ ap (λ (n : ℕ). n + length more) (p.stream.length-word (length (content fm m))) in
          elim (Bool-cases (ltb (length more) (length (content fm m)))) [
            | inl short ↦ (
              next,
              rw (enough, shape, size, short),
              nothing_yet fm (m ∷ ms) future next
                  (rw (content-nonempty fm m p) (
                    append_assoc (fm.coding.word (length (content fm m))) more future
                    ∙ ap (λ l. fm.coding.word (length (content fm m)) ++ l) left
                    ∙ sym (
                        append_assoc (fm.coding.word (length (content fm m))) (content fm m)
                          (messages fm ms))))
                  (rw (content-nonempty fm m p) short) (size-fits_word fm m p),
            )
            | inr long ↦
                let (r, same, q) =
                  loops m ms more future a (omega (arith, taken, h)) (ground (arith, long)) left in
                (r, rw (enough, shape, size, long) same, q)
          ]

  read_loop-Progress : (fuel : ℕ) → IsProtocol fm → Loops fuel
  read_loop-Progress zero p m ms buffer future a h k e = absurd (omega (arith, h))
  read_loop-Progress (suc fuel) p m ms buffer future a h k e =
      let (rest, shape, left) = split_prefix (content fm m) (messages fm ms) buffer future e k in
      let shorter : length rest ≤ fuel = omega (
        arith,
        h,
        ap length shape,
        length-append (content fm m) rest,
        length-append (fm.coding.word fm.opcode) (fm.body m),
        p.stream.length-word fm.opcode,
      ) in
      let (r, same, q) =
        after_message-Progress fuel ms rest future (fm.effect m a) p (read_loop-Progress fuel p)
          shorter left in
      (
        r,
        ap
              (λ b.
                read_loop fm.coding fm.handle (suc fuel)
                  (record { block_size = length (content fm m); buffer = b; state = a }))
              shape
            ∙ (round-after_message fuel m rest a p ∙ same),
        step_back fm m ms future a r q,
      )

  -- readData behind the first test, once the size of a message is read.
  read_block-Progress :
      (m : Msg) (ms : List Msg) (buffer future : List ℕ) (a : A)
      → IsProtocol fm
      → buffer ++ future ≡ content fm m ++ messages fm ms
      → (r : Reader A) × (read_block fm.coding fm.handle
            (record { block_size = length (content fm m); buffer = buffer; state = a })
          ≡ some r)
        × Progress fm (m ∷ ms) future a r
  unfolding read_block
  read_block-Progress m ms buffer future a p e =
      let r : Reader A = record {
        block_size = length (content fm m);
        buffer = buffer;
        state = a;
      } in
      elim (Bool-cases (ltb (length buffer) (length (content fm m)))) [
        | inl short ↦ (
          r,
          rw short,
          nothing_yet fm (m ∷ ms) future r
              (rw (content-nonempty fm m p) (
                append_assoc (fm.coding.word (length (content fm m))) buffer future
                ∙ ap (λ l. fm.coding.word (length (content fm m)) ++ l) e
                ∙ sym (
                    append_assoc (fm.coding.word (length (content fm m))) (content fm m)
                      (messages fm ms))))
              (rw (content-nonempty fm m p) short) (size-fits_word fm m p),
        )
        | inr long ↦
            let (u, same, q) =
              read_loop-Progress (suc (length buffer)) p m ms buffer future a (omega arith)
                (ground (arith, long)) e in
            (u, rw long same, q)
      ]

  -- readData, whatever is in the buffer.
  pub read-Progress :
      (ms : List Msg) (future : List ℕ) (r : Reader A)
      → IsProtocol fm
      → r.block_size < 2 ^ 32
      → unread fm r ++ future ≡ messages fm ms
      → (u : Reader A) × (read fm.coding fm.handle r ≡ some u) × Progress fm ms future r.state u
  unfolding read
  read-Progress ms future r p b e = elim (Bool-cases (r.block_size == 0)) [
    | inr some_size ↦
        let (m, rest, shape, size, left) =
          pending_size fm r.block_size ms r.buffer future p b (rw some_size at e) in
        let (u, same, q) = read_block-Progress m rest r.buffer future r.state p left in
        (
          u,
          rw some_size (
              ap
                (λ n.
                  read_block fm.coding fm.handle
                    (record { block_size = n; buffer = r.buffer; state = r.state }))
                size
              ∙ same),
          subst (λ l. Progress fm l future r.state u) (sym shape) q,
        )
    | inl no_size ↦ elim (Bool-cases (ltb (length r.buffer) 4)) [
      | inl few ↦ (r, rw (no_size, few), nothing_yet fm ms future r e (rw no_size few) b)
      | inr enough ↦ with_size ms (rw no_size at e) no_size enough
    ]
  ]
    where
      with_size :
          (ms : List Msg)
          → r.buffer ++ future ≡ messages fm ms
          → (r.block_size == 0) ≡ true
          → ltb (length r.buffer) 4 ≡ false
          → (u : Reader A) × (read fm.coding fm.handle r ≡ some u) × Progress fm ms future r.state u
      with_size [] e no_size enough =
          absurd (ground (arith, enough, ap length e, length-append r.buffer future))
      with_size (m ∷ rest) e no_size enough =
          let (more, shape, left) =
            next_message fm m rest r.buffer future p e (ground (arith, enough)) in
          let size : fm.coding.unword r.buffer ≡ (length (content fm m), more) =
            ap fm.coding.unword shape ∙ read_size fm m more p in
          let (u, same, q) = read_block-Progress m rest more future r.state p left in
          (u, rw (no_size, enough, size) same, q)
