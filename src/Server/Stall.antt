-- ===== src/Server/Stall.antt =====
-- When sendData ends, and what a failed write does to a connection.
use parlevision.Base.{
  drop, ℕ, zero, suc, ◌+◌, ◌≡◌, ◌≤◌, ◌<◌, refl, ap, ◌∙◌, Bool, true, false, not, ◌&&◌, List, [],
  ◌∷◌, ◌++◌, Option, none, some, ltb, leb, if◌then◌else◌, length, min, all, arith, Bool-cases,
  List-cases, Option-cases, inl, inr,
}
use parlevision.Server.{
  Frame, ServerConnection, write_frame, send_loop, send_data, limit_queue, queue_frame, ack_frame,
}
use parlevision.Server.Stream.{drop-drop}

-- A write that takes something, or fails.
abbrev pub is_progress : Option ℕ → Bool
is_progress none = true
is_progress (some zero) = false
is_progress (some (suc n)) = true

-- How many writes may still be needed, at most.
abbrev pub work : List Frame → ℕ
work [] = 0
work (f ∷ queue) = suc (length (drop f.sent f.bytes)) + work queue

length-drop : (n : ℕ) (xs : List ℕ) → n ≤ length xs → length (drop n xs) + n ≡ length xs
length-drop zero xs h = omega arith
length-drop (suc n) [] h = absurd (omega (arith, h))
length-drop (suc n) (x ∷ xs) h =
    let rest = length-drop n xs (omega (arith, h)) in omega (arith, rest)

pub write_frame-work :
    (n : ℕ) (f : Frame) (queue : List Frame) (c : ServerConnection)
    → work (write_frame (some (suc n)) f queue c).1.frame_queue < work (f ∷ queue)
unfolding write_frame
write_frame-work n f queue c =
    let unsent = drop f.sent f.bytes in
    let taken = min (suc n) (length unsent) in
    elim (Bool-cases (ltb taken (length unsent))) [
      | inl y ↦
          let left = length-drop taken unsent (ground arith) in
          rw (y, drop-drop f.sent taken f.bytes) (ground (arith, left, y))
      | inr z ↦ rw z (omega arith)
    ]

-- One round of the loop.
pub round :
    (answer : Option ℕ) (answers : List (Option ℕ)) (f : Frame) (queue : List Frame)
    (c : ServerConnection)
    → c.frame_queue ≡ f ∷ queue
    → leb c.max_frames_in_flight (length c.in_flight) ≡ false
    → let (overflow, d) = write_frame answer f queue c in
      send_loop (answer ∷ answers) c
      ≡ (if overflow then some (record d { waiting = true }) else send_loop answers d)
unfolding send_loop
round answer answers f queue c e room = ground (arith, e, room)

failed_round :
    (answers : List (Option ℕ)) (f : Frame) (queue : List Frame) (c : ServerConnection)
    → c.frame_queue ≡ f ∷ queue
    → leb c.max_frames_in_flight (length c.in_flight) ≡ false
    → send_loop (none ∷ answers) c ≡ some (record (write_frame none f queue c).1 { waiting = true })
unfolding write_frame
failed_round answers f queue c e room = round none answers f queue c e room

good_round :
    (n : ℕ) (answers : List (Option ℕ)) (f : Frame) (queue : List Frame) (c : ServerConnection)
    → c.frame_queue ≡ f ∷ queue
    → leb c.max_frames_in_flight (length c.in_flight) ≡ false
    → send_loop (some n ∷ answers) c ≡ send_loop answers (write_frame (some n) f queue c).1
unfolding write_frame
good_round n answers f queue c e room = round (some n) answers f queue c e room

send_loop-ends :
    (answers : List (Option ℕ)) (c : ServerConnection)
    → all is_progress answers ≡ true
    → work c.frame_queue ≤ length answers
    → (d : ServerConnection) × (send_loop answers c ≡ some d)
unfolding send_loop
send_loop-ends [] c p h = elim (List-cases c.frame_queue) [
  | inl e ↦ (c, ground arith)
  | inr (f, queue, e) ↦ absurd (ground (arith, h, ap work e))
]
send_loop-ends (answer ∷ answers) c p h = elim (List-cases c.frame_queue) [
  | inl e ↦ (c, ground arith)
  | inr (f, queue, e) ↦ elim (Bool-cases (leb c.max_frames_in_flight (length c.in_flight))) [
    | inl full ↦ (c, ground arith)
    | inr room ↦ elim (Option-cases answer) [
      | inl a ↦ (
        record (write_frame none f queue c).1 { waiting = true },
        ap (λ x. send_loop (x ∷ answers) c) a ∙ failed_round answers f queue c e room,
      )
      | inr (zero, a) ↦ absurd (ground arith)
      | inr (suc n, a) ↦
          let less = write_frame-work n f queue c in
          let (u, rest) =
            send_loop-ends answers (write_frame (some (suc n)) f queue c).1 (ground arith)
              (omega (arith, less, h, ap work e)) in
          (
            u,
            ap (λ x. send_loop (x ∷ answers) c) a
                ∙ (good_round (suc n) answers f queue c e room ∙ rest),
          )
    ]
  ]
]

-- The loop of sendData ends, if no write takes nothing without failing: after no more writes than
-- there are frames and bytes in the queue.
pub send_data-ends :
    (answers : List (Option ℕ)) (c : ServerConnection)
    → all is_progress answers ≡ true
    → work c.frame_queue ≤ length answers
    → (d : ServerConnection) × (send_data answers c ≡ some d)
unfolding send_data
send_data-ends answers c p h = elim (Bool-cases (c.is_open && c.is_connected && not c.waiting)) [
  | inl y ↦ let (d, e) = send_loop-ends answers c p h in (d, ground (arith, e))
  | inr z ↦ (c, ground arith)
]

-- The calls from outside.
pub data Call : Type 0 where
  queues : (answers : List (Option ℕ)) (serial : ℕ) (bytes : List ℕ) → Call
  sends : (answers : List (Option ℕ)) → Call
  acknowledges : (serial : ℕ) → Call

pub perform : Call → ServerConnection → Option ServerConnection
unfolding queue_frame send_data ack_frame
perform (queues answers serial bytes) c = queue_frame answers serial bytes c
perform (sends answers) c = send_data answers c
perform (acknowledges serial) c = some (ack_frame serial c)

pub perform_all : List Call → ServerConnection → Option ServerConnection
unfolding perform
perform_all [] c = some c
perform_all (call ∷ calls) c = elim (perform call c) [ none ↦ none | some d ↦ perform_all calls d ]

-- A lossy connection that waits, as it was.
record Stuck (c d : ServerConnection) : Type 0 where
  lossy : d.lossless ≡ false
  waits : d.waiting ≡ true
  wire : d.wire ≡ c.wire

perform-Stuck :
    (call : Call) (c : ServerConnection)
    → c.lossless ≡ false
    → c.waiting ≡ true
    → (d : ServerConnection) × (perform call c ≡ some d) × Stuck c d
unfolding perform limit_queue
perform-Stuck (queues answers serial bytes) c l w = elim (Bool-cases c.is_open) [
  | inr z ↦ (c, ground arith, record { lossy = l; waits = w; wire = refl })
  | inl y ↦
      let queued : ServerConnection = record c {
        frame_queue = c.frame_queue ++ record { serial = serial; bytes = bytes; sent = 0 } ∷ [];
      } in
      (
        limit_queue queued,
        ground arith,
        record { lossy = ground arith; waits = ground arith; wire = ground arith },
      )
]
perform-Stuck (sends answers) c l w =
    (c, ground arith, record { lossy = l; waits = w; wire = refl })
perform-Stuck (acknowledges serial) c l w = (
  ack_frame serial c,
  refl,
  record { lossy = ground arith; waits = ground arith; wire = ground arith },
)

perform_all-perform :
    (call : Call) (calls : List Call) (c d : ServerConnection)
    → perform call c ≡ some d
    → perform_all (call ∷ calls) c ≡ perform_all calls d
unfolding perform_all
perform_all-perform call calls c d e = ground (arith, e)

perform_all-Stuck :
    (calls : List Call) (c : ServerConnection)
    → c.lossless ≡ false
    → c.waiting ≡ true
    → (d : ServerConnection) × (perform_all calls c ≡ some d) × Stuck c d
unfolding perform_all
perform_all-Stuck [] c l w = (c, refl, record { lossy = l; waits = w; wire = refl })
perform_all-Stuck (call ∷ calls) c l w =
    let (d, first, here) = perform-Stuck call c l w in
    let (u, rest, there) = perform_all-Stuck calls d here.lossy here.waits in
    (
      u,
      perform_all-perform call calls c d first ∙ rest,
      record { lossy = there.lossy; waits = there.waits; wire = there.wire ∙ here.wire },
    )

-- A lossy connection whose socket once failed to take data, so that it waits: whatever frames are
-- queued, whatever acknowledgements come in and however often sendData is called, nothing is sent
-- any more. The calls do return.
pub perform_all-stalls :
    (calls : List Call) (c : ServerConnection)
    → c.lossless ≡ false
    → c.waiting ≡ true
    → (d : ServerConnection) × (perform_all calls c ≡ some d)
      × (d.wire ≡ c.wire)
      × (d.waiting ≡ true)
perform_all-stalls calls c l w =
    let (d, e, stuck) = perform_all-Stuck calls c l w in (d, e, stuck.wire, stuck.waits)
