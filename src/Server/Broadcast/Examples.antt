-- ===== src/Server/Broadcast/Examples.antt =====
-- A lossless server element with one client, whose socket takes nothing.
use parlevision.Base.{ℕ, ◌≡◌, refl, Bool, true, false, List, [], ◌∷◌, none, some, any}
use parlevision.Server.{ServerConnection, queue_frame}
use parlevision.Server.Broadcast.{
  ServerProcessor, new_server_processor, Event, incoming, queue, delivery, gone, be_lossless, run,
}
use parlevision.Server.Broadcast.Waits.{is_waiting, has_loss, run-is_waiting}

abbrev client : (max_frames_in_queue : ℕ) → ServerConnection
client max_frames_in_queue = record {
  is_open = true;
  is_connected = true;
  waiting = false;
  lossless = true;
  max_frames_in_queue = max_frames_in_queue;
  max_frames_in_flight = 1;
  frame_queue = [];
  in_flight = [];
  wire = [];
}

abbrev full_client : ServerConnection
full_client = record (client 1) {
  waiting = true;
  frame_queue = record { serial = 4; bytes = 40 ∷ []; sent = 0 } ∷ [];
}

abbrev element : Bool → List ServerConnection → ServerProcessor
element waiting connections = record {
  waiting = waiting;
  signals = [];
  lossless = true;
  max_frames_in_queue = 1;
  max_frames_in_flight = 1;
  connections = connections;
}

abbrev first_frame : List Event
first_frame = be_lossless true ∷ incoming ∷ queue 0 (none ∷ []) 4 (40 ∷ []) ∷ delivery ∷ []

first_frame-run : run first_frame new_server_processor ≡ some (element true (full_client ∷ []))
unfolding run queue_frame
first_frame-run = refl

run-is_waiting_example : any is_waiting (full_client ∷ []) ≡ true
unfolding has_loss run queue_frame
run-is_waiting_example =
    run-is_waiting first_frame (element true (full_client ∷ [])) first_frame-run refl refl

-- Its only client goes, and m_waiting stays set.
gone-run : run (gone 0 ∷ []) (element true (full_client ∷ [])) ≡ some (element true [])
unfolding run
gone-run = refl
