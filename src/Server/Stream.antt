-- ===== src/Server/Stream.antt =====
-- What reaches the socket: the bytes of the frames in the order in which they were queued.
use parlevision.Base.{
  take, drop, ℕ, zero, suc, ◌+◌, ◌≡◌, ◌≤◌, refl, sym, ap, subst, ◌∙◌, true, false, not, ◌&&◌, List,
  [], ◌∷◌, ◌++◌, Option, none, some, ltb, leb, length, min, arith, append_assoc, append-nil,
  length-append, Bool-cases, List-cases, Option-cases, inl, inr,
}
use parlevision.Server.{
  Frame, ServerConnection, write_frame, send_loop, send_data, limit_queue, queue_frame,
}

take-drop : (n : ℕ) (xs : List ℕ) → take n xs ++ drop n xs ≡ xs
take-drop zero xs = refl
take-drop (suc n) [] = refl
take-drop (suc n) (x ∷ xs) = ap (λ l. x ∷ l) (take-drop n xs)

pub drop-drop : (m n : ℕ) (xs : List ℕ) → drop (m + n) xs ≡ drop n (drop m xs)
drop-drop zero n xs = let e : zero + n ≡ n = omega arith in rw e refl
drop-drop (suc m) n [] = let e : suc m + n ≡ suc (m + n) = omega arith in rw e (sym (drop-nil n))
  where
    drop-nil : (n : ℕ) → drop {A = ℕ} n [] ≡ []
    drop-nil zero = refl
    drop-nil (suc n) = refl
drop-drop (suc m) n (x ∷ xs) =
    let e : suc m + n ≡ suc (m + n) = omega arith in rw e (drop-drop m n xs)

drop-all : (n : ℕ) (xs : List ℕ) → length xs ≤ n → drop n xs ≡ []
drop-all zero [] h = refl
drop-all zero (x ∷ xs) h = absurd (omega (arith, h))
drop-all (suc n) [] h = refl
drop-all (suc n) (x ∷ xs) h = drop-all n xs (omega (arith, h))

-- The bytes that the queue still holds.
abbrev pub pending : List Frame → List ℕ
pending [] = []
pending (f ∷ queue) = drop f.sent f.bytes ++ pending queue

pending-append : (fs gs : List Frame) → pending (fs ++ gs) ≡ pending fs ++ pending gs
pending-append [] gs = refl
pending-append (f ∷ fs) gs =
    rw (pending-append fs gs) (sym (append_assoc (drop f.sent f.bytes) (pending fs) (pending gs)))

-- All bytes that were queued: those on the wire, and those that wait.
abbrev pub stream : ServerConnection → List ℕ
stream c = c.wire ++ pending c.frame_queue

pub write_frame-stream :
    (answer : Option ℕ) (f : Frame) (queue : List Frame) (c : ServerConnection)
    → c.frame_queue ≡ f ∷ queue
    → stream (write_frame answer f queue c).1 ≡ stream c
unfolding write_frame
write_frame-stream none f queue c e = refl
write_frame-stream (some taken) f queue c e =
    let unsent = drop f.sent f.bytes in
    let n = min taken (length unsent) in
    elim (Bool-cases (ltb n (length unsent))) [
      | inl y ↦
          rw (y, e, drop-drop f.sent n f.bytes)
            (partial c.wire (take n unsent) (drop n unsent) unsent (pending queue)
              (take-drop n unsent))
      | inr z ↦
          rw (z, e)
            (partial c.wire (take n unsent) [] unsent (pending queue) (
              subst (λ l. take n unsent ++ l ≡ unsent) (drop-all n unsent (ground (arith, z)))
                (take-drop n unsent)))
    ]
  where
    partial : (w a b u p : List ℕ) → a ++ b ≡ u → (w ++ a) ++ (b ++ p) ≡ w ++ (u ++ p)
    partial w a b u p h =
        rw (← h) (append_assoc w a (b ++ p) ∙ ap (λ l. w ++ l) (sym (append_assoc a b p)))

write_frame-in_flight :
    (answer : Option ℕ) (f : Frame) (queue : List Frame) (c : ServerConnection)
    → let d = (write_frame answer f queue c).1 in
      (length d.in_flight ≤ suc (length c.in_flight))
      × (d.max_frames_in_flight ≡ c.max_frames_in_flight)
      × (d.lossless ≡ c.lossless)
unfolding write_frame
write_frame-in_flight none f queue c = (omega arith, refl, refl)
write_frame-in_flight (some taken) f queue c =
    (ground (arith, length_concat c.in_flight f.serial), ground arith, ground arith)
  where
    length_concat : (xs : List ℕ) (x : ℕ) → length (xs ++ x ∷ []) ≡ suc (length xs)
    length_concat xs x = length-append xs (x ∷ []) ∙ omega arith

-- What a call of sendData keeps.
pub record Sent (c d : ServerConnection) : Type 0 where
  pub same_stream : stream d ≡ stream c
  pub in_flight :
      length c.in_flight ≤ c.max_frames_in_flight → length d.in_flight ≤ d.max_frames_in_flight
  pub same_mode : d.lossless ≡ c.lossless

Sent-refl : (c : ServerConnection) → Sent c c
Sent-refl c = record { same_stream = refl; in_flight = λ h. h; same_mode = refl }

-- The first round of a loop that goes on.
first_round :
    (answer : Option ℕ) (f : Frame) (queue : List Frame) (c d : ServerConnection)
    → c.frame_queue ≡ f ∷ queue
    → leb c.max_frames_in_flight (length c.in_flight) ≡ false
    → Sent (write_frame answer f queue c).1 d
    → Sent c d
first_round answer f queue c d e room after =
    let (grown, limit, mode) = write_frame-in_flight answer f queue c in
    record {
      same_stream = after.same_stream ∙ write_frame-stream answer f queue c e;
      in_flight = λ h. after.in_flight (ground (arith, grown, limit, room));
      same_mode = after.same_mode ∙ mode;
    }

set_waiting-Sent : (c : ServerConnection) → Sent c (record c { waiting = true })
set_waiting-Sent c = record { same_stream = refl; in_flight = λ h. h; same_mode = refl }

send_loop-Sent :
    (answers : List (Option ℕ)) (c d : ServerConnection) → send_loop answers c ≡ some d → Sent c d
unfolding send_loop
send_loop-Sent [] c d h = let same : d ≡ c = ground arith in rw same (Sent-refl c)
send_loop-Sent (answer ∷ answers) c d h = elim (List-cases c.frame_queue) [
  | inl e ↦ let same : d ≡ c = ground arith in rw same (Sent-refl c)
  | inr (f, queue, e) ↦ elim (Bool-cases (leb c.max_frames_in_flight (length c.in_flight))) [
    | inl full ↦ let same : d ≡ c = ground arith in rw same (Sent-refl c)
    | inr room ↦
        let next = (write_frame answer f queue c).1 in
        elim (Bool-cases (write_frame answer f queue c).0) [
          | inl y ↦
              let same : d ≡ record next { waiting = true } = ground arith in
              first_round answer f queue c d e room (rw same (set_waiting-Sent next))
          | inr z ↦
              first_round answer f queue c d e room (send_loop-Sent answers next d (ground arith))
        ]
  ]
]

send_data-Sent :
    (answers : List (Option ℕ)) (c d : ServerConnection) → send_data answers c ≡ some d → Sent c d
unfolding send_data
send_data-Sent answers c d h = elim (Bool-cases (c.is_open && c.is_connected && not c.waiting)) [
  | inl y ↦ send_loop-Sent answers c d (ground arith)
  | inr z ↦ let same : d ≡ c = ground arith in rw same (Sent-refl c)
]

-- sendData, whatever the socket takes and however the call ends: the bytes on the wire with those
-- that wait are the same as before, so that no byte is lost, doubled or put out of order; and no
-- more frames are in flight than allowed.
pub send_data-stream :
    (answers : List (Option ℕ)) (c d : ServerConnection)
    → send_data answers c ≡ some d
    → (d.wire ++ pending d.frame_queue ≡ c.wire ++ pending c.frame_queue)
      × (length c.in_flight ≤ c.max_frames_in_flight → length d.in_flight ≤ d.max_frames_in_flight)
send_data-stream answers c d h =
    let sent = send_data-Sent answers c d h in (sent.same_stream, sent.in_flight)

limit_queue-lossless :
    (c : ServerConnection) → c.lossless ≡ true → stream (limit_queue c) ≡ stream c
unfolding limit_queue
limit_queue-lossless c h = ground arith

-- queueFrame of an open lossless connection adds exactly the bytes of the frame at the end of the
-- stream, whatever the socket takes during the call.
pub queue_frame-lossless :
    (answers : List (Option ℕ)) (serial : ℕ) (bytes : List ℕ) (c d : ServerConnection)
    → c.is_open ≡ true
    → c.lossless ≡ true
    → queue_frame answers serial bytes c ≡ some d
    → d.wire ++ pending d.frame_queue ≡ (c.wire ++ pending c.frame_queue) ++ bytes
unfolding queue_frame
queue_frame-lossless answers serial bytes c d opened lossless h =
    elim (Bool-cases (ltb (length c.in_flight) c.max_frames_in_flight)) [
      | inr z ↦
          let same : d ≡ limit_queue queued = ground arith in
          rw same (limit_queue-lossless queued lossless ∙ added)
      | inl y ↦ elim (Option-cases (send_data answers queued)) [
        | inl e ↦ absurd (ground arith)
        | inr (u, e) ↦
            let same : d ≡ limit_queue u = ground arith in
            let sent = send_data-Sent answers queued u e in
            rw same (limit_queue-lossless u (sent.same_mode ∙ lossless) ∙ sent.same_stream ∙ added)
      ]
    ]
  where
    queued : ServerConnection
    queued = record c {
      frame_queue = c.frame_queue ++ record { serial = serial; bytes = bytes; sent = 0 } ∷ [];
    }

    added : stream queued ≡ stream c ++ bytes
    added =
        rw
          (
            pending-append c.frame_queue (record { serial = serial; bytes = bytes; sent = 0 } ∷ []),
            append-nil bytes,
          )
          (sym (append_assoc c.wire (pending c.frame_queue) bytes))
