-- ===== src/Protocol/Chunks.antt =====
-- However the bytes of a series of messages are cut into pieces, each message is handled once, in
-- order, and nothing is left.
use parlevision.Base.{
  ℕ, ◌<◌, ◌^◌, ◌≡◌, refl, sym, ap, ◌∙◌, true, List, [], ◌∷◌, ◌++◌, some, ◌==◌, ltb, length,
  length-append, append_assoc, append-nil, arith, Bool-cases, inl, inr,
}
use parlevision.Protocol.{Reader, read, receive, receive_all}
use parlevision.Protocol.Messages.{
  flatten, Format, content, messages, effects, IsProtocol, unread, waits, pending_size,
  effects-append,
}
use parlevision.Protocol.Rounds.{read-Progress}

module _ {V A Msg : Type 0} (fm : Format V A Msg) where
  -- A reader that waits with nothing more to come has read all messages.
  at_end :
      (ms : List Msg) (r : Reader A)
      → IsProtocol fm
      → r.block_size < 2 ^ 32
      → waits fm r ≡ true
      → unread fm r ++ [] ≡ messages fm ms
      → r ≡ record { block_size = 0; buffer = []; state = effects fm ms r.state }
  at_end ms r p b w e = elim (Bool-cases (r.block_size == 0)) [
    | inr some_size ↦
        let (m, rest, shape, size, left) =
          pending_size fm r.block_size ms r.buffer [] p b (rw some_size at e) in
        absurd (
          ground (
            arith,
            w,
            some_size,
            size,
            ap length left,
            length-append r.buffer [],
            length-append (content fm m) (messages fm rest),
          ))
    | inl no_size ↦ by_messages ms (rw no_size at e) no_size (rw no_size at w)
  ]
    where
      empty : (bs : List ℕ) → bs ++ [] ≡ [] → bs ≡ []
      empty bs f = sym (append-nil bs) ∙ f

      by_messages :
          (ms : List Msg)
          → r.buffer ++ [] ≡ messages fm ms
          → (r.block_size == 0) ≡ true
          → ltb (length r.buffer) 4 ≡ true
          → r ≡ record { block_size = 0; buffer = []; state = effects fm ms r.state }
      by_messages [] f no_size few =
          let size : r.block_size ≡ 0 = ground arith in
          λ i. record { block_size = size i; buffer = empty r.buffer f i; state = r.state }
      by_messages (m ∷ rest) f no_size few = absurd (
          ground (
            arith,
            few,
            ap length f,
            length-append r.buffer [],
            length-append (fm.coding.word (length (content fm m)) ++ content fm m)
                (messages fm rest),
            length-append (fm.coding.word (length (content fm m))) (content fm m),
            p.stream.length-word (length (content fm m)),
          ))

  unread-append :
      (r : Reader A) (bytes future : List ℕ)
      → unread fm (record r { buffer = r.buffer ++ bytes }) ++ future
        ≡ unread fm r ++ (bytes ++ future)
  unread-append r bytes future = elim (Bool-cases (r.block_size == 0)) [
    | inl e ↦ rw e (append_assoc r.buffer bytes future)
    | inr e ↦ rw e (
        append_assoc (fm.coding.word r.block_size) (r.buffer ++ bytes) future
        ∙ ap (λ l. fm.coding.word r.block_size ++ l) (append_assoc r.buffer bytes future)
        ∙ sym (append_assoc (fm.coding.word r.block_size) r.buffer (bytes ++ future)))
  ]

  receive_all-read :
      (bytes : List ℕ) (chunks : List (List ℕ)) (r u : Reader A)
      → read fm.coding fm.handle (record r { buffer = r.buffer ++ bytes }) ≡ some u
      → receive_all fm.coding fm.handle (bytes ∷ chunks) r
        ≡ receive_all fm.coding fm.handle chunks u
  unfolding receive_all receive
  receive_all-read bytes chunks r u e = ground (arith, e)

  receive_all-from :
      (chunks : List (List ℕ)) (ms : List Msg) (r : Reader A)
      → IsProtocol fm
      → r.block_size < 2 ^ 32
      → waits fm r ≡ true
      → unread fm r ++ flatten chunks ≡ messages fm ms
      → receive_all fm.coding fm.handle chunks r
        ≡ some (record { block_size = 0; buffer = []; state = effects fm ms r.state })
  unfolding receive_all receive
  receive_all-from [] ms r p b w e = ap some (at_end ms r p b w e)
  receive_all-from (bytes ∷ chunks) ms r p b w e =
      let came : Reader A = record r { buffer = r.buffer ++ bytes } in
      let (u, same, q) =
        read-Progress fm ms (flatten chunks) came p b
          (unread-append r bytes (flatten chunks) ∙ e) in
      let rest = receive_all-from chunks q.open_part u p q.bounded q.idle q.left in
      let all_of : effects fm q.open_part u.state ≡ effects fm ms r.state =
        ap (effects fm q.open_part) q.done
        ∙ sym (effects-append fm q.handled_part q.open_part r.state)
        ∙ ap (λ l. effects fm l r.state) (sym q.parts) in
      receive_all-read bytes chunks r u same
      ∙ (rest ∙ ap (λ x. some (record { block_size = 0; buffer = []; state = x })) all_of)

  -- The bytes of a series of messages, cut into any pieces: after the last piece each message has
  -- been handled once, in order, nothing is left in the socket, and no size is pending.
  pub receive_all-messages :
      (chunks : List (List ℕ)) (ms : List Msg) (a : A)
      → IsProtocol fm
      → flatten chunks ≡ messages fm ms
      → receive_all fm.coding fm.handle chunks (record { block_size = 0; buffer = []; state = a })
        ≡ some (record { block_size = 0; buffer = []; state = effects fm ms a })
  receive_all-messages chunks ms a p e =
      receive_all-from chunks ms (record { block_size = 0; buffer = []; state = a }) p (omega arith)
        refl e
