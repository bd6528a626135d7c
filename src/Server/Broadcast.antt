-- ===== src/Server/Broadcast.antt =====
-- The server element with its connections: src/plvtcpserver/TCPServerProcessor.cpp (stalled,
-- unstalled, the setters) and src/plvtcpserver/Server.cpp (incomingConnection,
-- serverThreadStalled, the setters). A connection has its own thread. So a call of it is a step of
-- its own, at any time after the signal: queueFrame for a frame that is broadcast, and a setting
-- that changes. The signals waitingOnClient go the other way: they wait in a queue, in the order
-- in which they were emitted, until the thread of the server delivers them.
pub mod Waits
mod Examples
use parlevision.Base.{
  ℕ, zero, suc, Bool, true, false, not, ◌&&◌, ◌||◌, List, [], ◌∷◌, ◌++◌, Option, none, some, ltb,
  if◌then◌else◌, get_elem?, set,
}
use parlevision.Server.{ServerConnection, queue_frame, send_data, ack_frame}

-- waiting: m_waiting of the processor. signals: the arguments of the signals waitingOnClient that
-- are not delivered yet, the oldest first. The next three are those of the Server, and connections is
-- what it has told its signals to.
pub record ServerProcessor : Type 0 where
  pub waiting : Bool
  pub signals : List Bool
  pub lossless : Bool
  pub max_frames_in_queue : ℕ
  pub max_frames_in_flight : ℕ
  pub connections : List ServerConnection

abbrev pub new_server_processor : ServerProcessor
new_server_processor = record {
  waiting = false;
  signals = [];
  lossless = false;
  max_frames_in_queue = 1;
  max_frames_in_flight = 1;
  connections = [];
}

-- Server::serverThreadStalled, with stalled and unstalled of the processor
unfoldable pub server_thread_stalled : Bool → ServerProcessor → ServerProcessor
server_thread_stalled is_stalled s = record s { waiting = is_stalled }

-- The signal waitingOnClient: a connection emits it when it has changed its m_waiting, in sendData,
-- queueFrame and ackFrame.
abbrev pub is_changed : (before after : Bool) → Bool
is_changed true after = not after
is_changed false after = after

unfoldable pub waiting_on_client :
    (before after : ServerConnection) → ServerProcessor → ServerProcessor
waiting_on_client before after s =
    if is_changed before.waiting after.waiting
    then record s { signals = s.signals ++ after.waiting ∷ [] }
    else s

-- The event loop of the server's thread delivers the oldest signal.
unfoldable pub deliver : ServerProcessor → ServerProcessor
unfolding server_thread_stalled
deliver s = elim s.signals [
  | [] ↦ s
  | is_stalled ∷ later ↦ server_thread_stalled is_stalled (record s { signals = later })
]

-- The constructor of ServerConnection, and start if it succeeds
abbrev pub new_connection : ServerProcessor → ServerConnection
new_connection s = record {
  is_open = true;
  is_connected = true;
  waiting = false;
  lossless = s.lossless;
  max_frames_in_queue = s.max_frames_in_queue;
  max_frames_in_flight = s.max_frames_in_flight;
  frame_queue = [];
  in_flight = [];
  wire = [];
}

-- Server::incomingConnection
unfoldable pub incoming_connection : ServerProcessor → ServerProcessor
incoming_connection s = record s { connections = s.connections ++ new_connection s ∷ [] }

abbrev pub remove_at {ℓ} : {A : Type ℓ} → ℕ → List A → List A
remove_at i [] = []
remove_at zero (x ∷ xs) = xs
remove_at (suc i) (x ∷ xs) = x ∷ remove_at i xs

-- ServerConnection::disconnected: the connection is deleted, and emits no waitingOnClient.
unfoldable pub disconnected : ℕ → ServerProcessor → ServerProcessor
disconnected i s = record s { connections = remove_at i s.connections }

-- TCPServerProcessor::setMaxFramesInQueue. The connections listen for a signal of another name.
unfoldable pub set_max_frames_in_queue : ℕ → ServerProcessor → ServerProcessor
set_max_frames_in_queue max s = if ltb 0 max then record s { max_frames_in_queue = max } else s

-- ServerConnection::setMaxFramesInFlight and setLossless
abbrev pub with_max_frames_in_flight : ℕ → ServerConnection → ServerConnection
with_max_frames_in_flight max c = record c { max_frames_in_flight = max }

abbrev pub with_lossless : Bool → ServerConnection → ServerConnection
with_lossless lossless c = record c { lossless = lossless }

-- TCPServerProcessor::setMaxFramesInFlight
unfoldable pub set_max_frames_in_flight : ℕ → ServerProcessor → ServerProcessor
set_max_frames_in_flight max s = if ltb 0 max then record s { max_frames_in_flight = max } else s

-- TCPServerProcessor::setLossless
unfoldable pub set_lossless : Bool → ServerProcessor → ServerProcessor
set_lossless lossless s = record s { lossless = lossless }

pub data Event : Type 0 where
  incoming : Event
  queue : (connection : ℕ) → List (Option ℕ) → (serial : ℕ) → List ℕ → Event
  send : (connection : ℕ) → List (Option ℕ) → Event
  ack : (connection serial : ℕ) → Event
  gone : (connection : ℕ) → Event
  max_in_queue max_in_flight : ℕ → Event
  be_lossless : Bool → Event
  told_in_flight : (connection max : ℕ) → Event
  told_lossless : (connection : ℕ) → Bool → Event
  delivery : Event

-- A call of a connection; `none` if there is no such connection, or the answers of the socket are
-- too few.
unfoldable pub on_connection :
    ℕ → (ServerConnection → Option ServerConnection) → ServerProcessor → Option ServerProcessor
unfolding waiting_on_client
on_connection i call s = elim (get_elem? s.connections i) [
  | none ↦ none
  | some c ↦ elim (call c) [
    | none ↦ none
    | some d ↦ some (waiting_on_client c d (record s { connections = set s.connections i d }))
  ]
]

unfoldable pub step : Event → ServerProcessor → Option ServerProcessor
unfolding incoming_connection disconnected on_connection set_max_frames_in_queue
    set_max_frames_in_flight set_lossless deliver
step incoming s = some (incoming_connection s)
step (queue i answers serial bytes) s = on_connection i (queue_frame answers serial bytes) s
step (send i answers) s = on_connection i (send_data answers) s
step (ack i serial) s = on_connection i (λ c. some (ack_frame serial c)) s
step (gone i) s = some (disconnected i s)
step (max_in_queue max) s = some (set_max_frames_in_queue max s)
step (max_in_flight max) s = some (set_max_frames_in_flight max s)
step (be_lossless lossless) s = some (set_lossless lossless s)
step (told_in_flight i max) s = on_connection i (λ c. some (with_max_frames_in_flight max c)) s
step (told_lossless i lossless) s = on_connection i (λ c. some (with_lossless lossless c)) s
step delivery s = some (deliver s)

unfoldable pub run : List Event → ServerProcessor → Option ServerProcessor
unfolding step
run [] s = some s
run (e ∷ events) s = elim (step e s) [ none ↦ none | some t ↦ run events t ]
