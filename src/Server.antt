-- ===== src/Server.antt =====
-- The frames that a server sends to a client: src/plvtcpserver/ServerConnection.cpp (queueFrame,
-- sendData, ackFrame). The socket is a parameter: what each write of a call takes is a list of
-- answers, where `none` is the result -1. QIODevice::write takes at most what it is given.
pub mod Stream
pub mod Stall
pub mod Acks
pub mod Exchange
pub mod Broadcast
mod Examples
mod Exchanges
use parlevision.Base.{
  take, drop, ℕ, zero, suc, ◌+◌, Bool, true, false, not, ◌||◌, ◌&&◌, List, [], ◌∷◌, ◌++◌, Option,
  none, some, ◌==◌, ltb, leb, if◌then◌else◌, length, is_empty, min,
}

-- sent: how many of the bytes the socket has taken.
pub record Frame : Type 0 where
  pub serial : ℕ
  pub bytes : List ℕ
  pub sent : ℕ

-- is_open: whether m_tcpSocket is not null. is_connected: whether its state is ConnectedState.
-- in_flight: m_frameNumbersInFlight. wire: all bytes that the socket has taken.
pub record ServerConnection : Type 0 where
  pub is_open : Bool
  pub is_connected : Bool
  pub waiting : Bool
  pub lossless : Bool
  pub max_frames_in_queue : ℕ
  pub max_frames_in_flight : ℕ
  pub frame_queue : List Frame
  pub in_flight : List ℕ
  pub wire : List ℕ

-- One round of the loop in sendData, for the first frame of the queue: whether the write failed,
-- and the connection. The two branches on f.sent are one, since bytes from 0 on are all bytes.
pub write_frame : Option ℕ → Frame → List Frame → ServerConnection → Bool × ServerConnection
write_frame none f queue c = (true, c)
write_frame (some taken) f queue c =
    let unsent = drop f.sent f.bytes in
    let bytes_sent = min taken (length unsent) in
    let after = c.wire ++ take bytes_sent unsent in
    (
      false,
      if ltb bytes_sent (length unsent)
          then record c {
            wire = after;
            frame_queue = record f { sent = f.sent + bytes_sent } ∷ queue;
          }
          else record c {
            wire = after;
            frame_queue = queue;
            in_flight = c.in_flight ++ f.serial ∷ [];
          },
    )

-- The loop of sendData; `none` if the answers end before the loop does.
pub send_loop : List (Option ℕ) → ServerConnection → Option ServerConnection
unfolding write_frame
send_loop [] c =
    if leb c.max_frames_in_flight (length c.in_flight) || is_empty c.frame_queue
    then some c
    else none
send_loop (answer ∷ answers) c = elim c.frame_queue [
  | [] ↦ some c
  | f ∷ queue ↦
      let (overflow, d) = write_frame answer f queue c in
      let rest = send_loop answers d in
      if leb c.max_frames_in_flight (length c.in_flight)
      then some c
      else if overflow
      then some (record d { waiting = true })
      else rest
]

-- ServerConnection::sendData
unfoldable pub send_data : List (Option ℕ) → ServerConnection → Option ServerConnection
unfolding send_loop
send_data answers c =
    if not (c.is_open && c.is_connected)
    then some c
    else if c.waiting
    then some c
    else send_loop answers c

-- The statements of queueFrame after the call of sendData.
pub limit_queue : ServerConnection → ServerConnection
limit_queue c =
    if ltb c.max_frames_in_queue (length c.frame_queue)
    then if c.lossless
      then record c { waiting = true }
      else elim c.frame_queue [ [] ↦ c | f ∷ queue ↦ record c { frame_queue = queue } ]
    else c

-- ServerConnection::queueFrame. The sendData that it schedules is a call of its own.
unfoldable pub queue_frame :
    List (Option ℕ) → ℕ → List ℕ → ServerConnection → Option ServerConnection
unfolding send_data limit_queue
queue_frame answers serial bytes c =
    let queued = record c {
      frame_queue = c.frame_queue ++ record { serial = serial; bytes = bytes; sent = 0 } ∷ [];
    } in
    if not c.is_open
    then some c
    else elim (if ltb (length queued.in_flight) queued.max_frames_in_flight
        then send_data answers queued
        else some queued) [ none ↦ none | some d ↦ some (limit_queue d) ]

-- ServerConnection::ackFrame
unfoldable pub ack_frame : ℕ → ServerConnection → ServerConnection
ack_frame serial c = elim c.in_flight [
  | [] ↦ c
  | expected ∷ rest ↦ record c {
    in_flight = if expected == serial then rest else c.in_flight;
    waiting = if c.lossless && c.waiting then false else c.waiting;
  }
]
