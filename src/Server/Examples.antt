-- ===== src/Server/Examples.antt =====
-- A connection with one frame in flight at a time at most, and two frames in the queue.
use parlevision.Base.{
  ℕ, ◌≡◌, ◌≤◌, refl, Bool, true, false, List, [], ◌∷◌, ◌++◌, Option, none, some, arith, length,
}
use parlevision.Server.{ServerConnection, send_data, queue_frame}
use parlevision.Server.Stream.{send_data-stream}
use parlevision.Server.Stall.{
  queues, sends, acknowledges, perform_all, send_data-ends, perform_all-stalls,
}

abbrev two_frames : (lossless waiting : Bool) → ServerConnection
two_frames lossless waiting = record {
  is_open = true;
  is_connected = true;
  waiting = waiting;
  lossless = lossless;
  max_frames_in_queue = 3;
  max_frames_in_flight = 2;
  frame_queue =
      record { serial = 4; bytes = 40 ∷ 41 ∷ 42 ∷ []; sent = 1 }
      ∷ record { serial = 5; bytes = 50 ∷ []; sent = 0 }
      ∷ [];
  in_flight = [];
  wire = 40 ∷ [];
}

-- The socket takes one byte, then all that is given, then fails.
abbrev answers : List (Option ℕ)
answers = some 1 ∷ some 9 ∷ none ∷ []

abbrev overflown : ServerConnection
overflown = record (two_frames true false) {
  waiting = true;
  frame_queue = record { serial = 5; bytes = 50 ∷ []; sent = 0 } ∷ [];
  in_flight = 4 ∷ [];
  wire = 40 ∷ 41 ∷ 42 ∷ [];
}

send_test : send_data answers (two_frames true false) ≡ some overflown
unfolding send_data
send_test = refl

send_data-stream_example : length overflown.in_flight ≤ 2
send_data-stream_example =
    (send_data-stream answers (two_frames true false) overflown send_test).1 (omega arith)

queue_test :
    queue_frame answers 6 (60 ∷ []) (two_frames true false)
    ≡ some (record overflown {
      frame_queue = overflown.frame_queue ++ record { serial = 6; bytes = 60 ∷ []; sent = 0 } ∷ [];
    })
unfolding queue_frame
queue_test = refl

send_data-ends_example :
    (d : ServerConnection) × (send_data
        (some 1 ∷ some 1 ∷ some 1 ∷ none ∷ none ∷ [])
        (two_frames false false)
      ≡ some d)
send_data-ends_example =
    send_data-ends (some 1 ∷ some 1 ∷ some 1 ∷ none ∷ none ∷ []) (two_frames false false) refl
      (omega arith)

perform_all-stalls_example :
    (d : ServerConnection) × (perform_all
        (acknowledges 4 ∷ sends answers ∷ queues answers 6 (60 ∷ []) ∷ [])
        (two_frames false true)
      ≡ some d)
    × (d.wire ≡ 40 ∷ [])
    × (d.waiting ≡ true)
perform_all-stalls_example =
    perform_all-stalls (acknowledges 4 ∷ sends answers ∷ queues answers 6 (60 ∷ []) ∷ [])
      (two_frames false true) refl refl
