-- ===== src/Server/Exchange.antt =====
-- The frames of src/plvtcpserver/TCPServerProcessor.cpp on their way through the queue of
-- src/plvtcpserver/ServerConnection.cpp (sendData, readyRead) to the client of
-- src/plvtcpserver/TCPClientProducer.cpp (readData), and the acknowledgements on their way back.
use parlevision.Base.{
  ℕ, zero, suc, ◌+◌, ◌<◌, ◌≤◌, ◌^◌, ◌≡◌, refl, ap, ◌∙◌, Bool, true, false, List, [], ◌∷◌, ◌++◌,
  Option, none, some, ltb, length, length-append, drop, min, map, append_assoc, append-nil, arith,
  all, All, Bool-cases, List-cases, inl, inr,
}
use parlevision.Protocol.{DataStream, IsDataStream, Reader, receive_all}
use parlevision.Protocol.Messages.{flatten}
use parlevision.Client
use parlevision.Client.{Client, frame_block}
use parlevision.Client.Frames.{blocks, acks, all_values, receive_all-blocks}
use parlevision.Server.{Frame, ServerConnection, write_frame, send_loop, send_data}
use parlevision.Server.Stream.{pending, stream, write_frame-stream}
use parlevision.Server.Stall.{work, write_frame-work, round}
use parlevision.Server.Acks.{ack_blocks, receive_all-acks}

-- A write that takes something.
abbrev pub is_written : Option ℕ → Bool
is_written none = false
is_written (some zero) = false
is_written (some (suc n)) = true

abbrev serials : List Frame → List ℕ
serials [] = []
serials (f ∷ queue) = f.serial ∷ serials queue

-- A connection that has sent its whole queue.
abbrev emptied : ServerConnection → ServerConnection
emptied c = record c {
  wire = stream c;
  frame_queue = [];
  in_flight = c.in_flight ++ serials c.frame_queue;
}

write_frame-fits :
    (n : ℕ) (f : Frame) (queue : List Frame) (c : ServerConnection)
    → c.frame_queue ≡ f ∷ queue
    → let d = (write_frame (some n) f queue c).1 in
      (emptied d ≡ emptied c)
      × (length d.in_flight + length d.frame_queue ≡ length c.in_flight + length c.frame_queue)
      × (d.max_frames_in_flight ≡ c.max_frames_in_flight)
unfolding write_frame
write_frame-fits n f queue c e =
    let unsent = drop f.sent f.bytes in
    let taken = min n (length unsent) in
    let same = write_frame-stream (some n) f queue c e in
    elim (Bool-cases (ltb taken (length unsent))) [
      | inl y ↦ (ground (arith, y, e, same), ground (arith, y, e), ground arith)
      | inr z ↦ (
        ground (arith, z, e, same, append_assoc c.in_flight (f.serial ∷ []) (serials queue)),
        ground (arith, z, e, length-append c.in_flight (f.serial ∷ [])),
        ground arith,
      )
    ]

nothing_queued :
    (answers : List (Option ℕ)) (c : ServerConnection)
    → c.frame_queue ≡ []
    → send_loop answers c ≡ some (emptied c)
unfolding send_loop
nothing_queued [] c e = ground (arith, e, append-nil c.wire, append-nil c.in_flight)
nothing_queued (answer ∷ answers) c e = ground (arith, e, append-nil c.wire, append-nil c.in_flight)

send_loop-emptied :
    (answers : List (Option ℕ)) (c : ServerConnection)
    → all is_written answers ≡ true
    → work c.frame_queue ≤ length answers
    → length c.in_flight + length c.frame_queue ≤ c.max_frames_in_flight
    → send_loop answers c ≡ some (emptied c)
unfolding send_loop
send_loop-emptied [] c w h k = elim (List-cases c.frame_queue) [
  | inl e ↦ nothing_queued [] c e
  | inr (f, queue, e) ↦ absurd (ground (arith, e, h))
]
send_loop-emptied (none ∷ answers) c w h k = absurd (ground (arith, w))
send_loop-emptied (some zero ∷ answers) c w h k = absurd (ground (arith, w))
send_loop-emptied (some (suc n) ∷ answers) c w h k = elim (List-cases c.frame_queue) [
  | inl e ↦ nothing_queued (some (suc n) ∷ answers) c e
  | inr (f, queue, e) ↦
      let d = (write_frame (some (suc n)) f queue c).1 in
      let (same, fits, limit) = write_frame-fits (suc n) f queue c e in
      round (some (suc n)) answers f queue c e (ground (arith, e, k))
      ∙ send_loop-emptied answers d (ground (arith, w))
          (ground (arith, e, h, write_frame-work n f queue c)) (omega (arith, fits, limit, k))
      ∙ ap some same
]

-- sendData of an open, connected connection that does not wait and has room in flight for its
-- whole queue, when each write takes something and the writes are enough: the bytes of the queue
-- are put on the wire and all its frames are in flight.
pub send_data-emptied :
    (answers : List (Option ℕ)) (c : ServerConnection)
    → c.is_open ≡ true
    → c.is_connected ≡ true
    → c.waiting ≡ false
    → all is_written answers ≡ true
    → work c.frame_queue ≤ length answers
    → length c.in_flight + length c.frame_queue ≤ c.max_frames_in_flight
    → send_data answers c ≡ some (emptied c)
unfolding send_data
send_data-emptied answers c opened connected idle w h k =
    ground (arith, opened, connected, idle, send_loop-emptied answers c w h k)

module _ {V : Type 0} (ds : DataStream V) where
  -- The frames as they stand in the queue of a connection, before any byte of them is sent.
  abbrev pub queued : List (parlevision.Client.Frames.Frame ds) → List Frame
  queued [] = []
  queued (f ∷ fs) =
      record { serial = f.number; bytes = frame_block ds f.number (map some f.values); sent = 0 }
      ∷ queued fs

  -- The bytes that a connection has on the wire after sendData.
  abbrev pub wire_after : Option ServerConnection → List ℕ
  wire_after none = []
  wire_after (some s) = s.wire

  -- The bytes that a client has written after readData.
  abbrev pub written_after : Option (Reader (Client V)) → List ℕ
  written_after none = []
  written_after (some r) = r.state.sent

  pending-queued :
      (fs : List (parlevision.Client.Frames.Frame ds)) → pending (queued fs) ≡ blocks ds fs
  pending-queued [] = refl
  pending-queued (f ∷ fs) =
      ap (λ l. frame_block ds f.number (map some f.values) ++ l) (pending-queued fs)

  acks-ack_blocks :
      (fs : List (parlevision.Client.Frames.Frame ds))
      → acks ds fs ≡ ack_blocks ds (serials (queued fs))
  acks-ack_blocks [] = refl
  acks-ack_blocks (f ∷ fs) = rw (acks-ack_blocks fs)

  serials-fit :
      (fs : List (parlevision.Client.Frames.Frame ds)) → All (λ n. n < 2 ^ 32) (serials (queued fs))
  serials-fit [] = tt
  serials-fit (f ∷ fs) = (f.number-fits, serials-fit fs)

  -- A whole exchange, with a coding that reads what it wrote. An open, connected connection that
  -- does not wait, with nothing on the wire and no frame in flight, has frames in its queue, no
  -- more than may be in flight; each write of its sendData takes something, and the writes are
  -- enough. The bytes on the wire reach a client that can write to its socket and has written
  -- nothing, and the bytes that the client writes reach the connection, both cut into any pieces.
  -- Then the client has the values of each frame in its list, in order, and no frame is queued or
  -- in flight at the connection, so that it can send the next ones.
  pub exchange-completes :
      (answers : List (Option ℕ)) (to_client to_server : List (List ℕ))
      (fs : List (parlevision.Client.Frames.Frame ds)) (s : ServerConnection) (c : Client V)
      → IsDataStream ds
      → s.is_open ≡ true
      → s.is_connected ≡ true
      → s.waiting ≡ false
      → s.wire ≡ []
      → s.in_flight ≡ []
      → s.frame_queue ≡ queued fs
      → length s.frame_queue ≤ s.max_frames_in_flight
      → all is_written answers ≡ true
      → work s.frame_queue ≤ length answers
      → c.is_writable ≡ true
      → c.sent ≡ []
      → flatten to_client ≡ wire_after (send_data answers s)
      → flatten to_server
        ≡ written_after (
            receive_all ds
              (parlevision.Client.handle ds)
              to_client
              (record { block_size = 0; buffer = []; state = c }))
      → (d e : ServerConnection) × (r : Reader (Client V)) × (send_data answers s ≡ some d)
        × (receive_all ds
              (parlevision.Client.handle ds)
              to_client
              (record { block_size = 0; buffer = []; state = c })
            ≡ some r)
        × (r.state.frame_list ≡ c.frame_list ++ all_values ds fs)
        × (receive_all ds
              (parlevision.Server.Acks.handle ds)
              to_server
              (record { block_size = 0; buffer = []; state = d })
            ≡ some (record { block_size = 0; buffer = []; state = e }))
        × (e.frame_queue ≡ [])
        × (e.in_flight ≡ [])
  exchange-completes answers to_client to_server fs s c ds_ok opened connected idle no_wire
        none_in_flight q room w enough writable none_sent from_server from_client =
      let sent_all =
        send_data-emptied answers s opened connected idle w enough
          (ground (arith, none_in_flight, room)) in
      let on_wire : flatten to_client ≡ blocks ds fs =
        from_server ∙ ap wire_after sent_all ∙ ground (arith, no_wire, q, pending-queued fs) in
      let read = receive_all-blocks ds to_client fs c ds_ok writable on_wire in
      let written : flatten to_server ≡ ack_blocks ds (serials (queued fs)) =
        from_client ∙ ap written_after read ∙ ground (arith, none_sent, acks-ack_blocks fs) in
      (
        emptied s,
        _,
        _,
        sent_all,
        read,
        refl,
        receive_all-acks ds to_server (serials (queued fs)) [] (emptied s) ds_ok (serials-fit fs)
            (ground (arith, none_in_flight, q, append-nil (serials (queued fs)))) written,
        refl,
        refl,
      )
