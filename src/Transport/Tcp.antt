-- ===== src/Transport/Tcp.antt =====
-- `TcpTransport` of src/transport/tcp_transport.cpp, without the calls that set a socket up. What the
-- operating system returns from a `send` or a `recv` is an argument. An endpoint, which the transport
-- only hands on, is left out, and so are the connection in server mode and the threads: a round of the
-- receive loop is a step.
use opensomeip.Base.{
  ℕ, zero, suc, ◌+◌, ◌-◌, min, Bool, true, false, not, ◌&&◌, ◌||◌, ◌==◌, ltb, if◌then◌else◌, List,
  [], ◌∷◌, ◌++◌, length, take, drop, Option, none, some,
}
use opensomeip.Base.Bytes.{read32}
use opensomeip.Result.{Result, success, not_connected, network_error, buffer_overflow}
use opensomeip.Message.{Message, default_message, serialize, deserialize}

pub data TcpConnectionState : Type 0 where
  disconnected connecting connected disconnecting : TcpConnectionState

pub record TcpTransport : Type 0 where
  pub max_receive_buffer : ℕ
  pub has_socket : Bool
  pub state : TcpConnectionState
  pub last_activity : ℕ
  pub active_connections : ℕ
  pub message_queue : List Message

abbrev pub is_connected_state : TcpConnectionState → Bool
is_connected_state disconnected = false
is_connected_state connecting = false
is_connected_state connected = true
is_connected_state disconnecting = false

unfoldable pub is_connected : TcpTransport → Bool
is_connected t = is_connected_state t.state

-- What a `send` returns: a number of bytes, `EAGAIN` or `EWOULDBLOCK`, or another error.
pub data SendOutcome : Type 0 where
  wrote : ℕ → SendOutcome
  blocked : SendOutcome
  broken : SendOutcome

-- The result and the bytes that have gone out, for the outcomes of the calls of `send` one after
-- another; `none` while the loop is not done.
unfoldable pub send_data : List SendOutcome → List ℕ → Option Result × List ℕ
send_data outcomes [] = (some success, [])
send_data [] (x ∷ xs) = (none, [])
send_data (blocked ∷ outcomes) (x ∷ xs) = send_data outcomes (x ∷ xs)
send_data (broken ∷ outcomes) (x ∷ xs) = (some network_error, [])
send_data (wrote zero ∷ outcomes) (x ∷ xs) = (some network_error, [])
send_data (wrote (suc n) ∷ outcomes) (x ∷ xs) =
    let (result, out) = send_data outcomes (drop n xs) in (result, x ∷ take n xs ++ out)

abbrev is_sent : Option Result → Bool
is_sent none = false
is_sent (some success) = true
is_sent (some _) = false

unfoldable pub send_message :
    List SendOutcome → ℕ → Message → TcpTransport → Option Result × TcpTransport × List ℕ
unfolding is_connected
send_message outcomes now message t =
    let (result, out) = send_data outcomes (serialize message) in
    if not (is_connected t)
    then (some not_connected, t, [])
    else (result, if is_sent result then record t { last_activity = now } else t, out)

unfoldable pub receive_message : TcpTransport → Option Message × TcpTransport
receive_message t = elim t.message_queue [
  | [] ↦ (none, t)
  | message ∷ rest ↦ (some message, record t { message_queue = rest })
]

-- Behind the call, and whether the listener hears of a lost connection.
unfoldable pub disconnect_internal : TcpTransport → TcpTransport × Bool
disconnect_internal t = if not t.has_socket then (t, false) else (
  record t {
    has_socket = false;
    state = disconnected;
    active_connections = t.active_connections - 1;
  },
  true,
)

unfoldable pub disconnect : TcpTransport → Result × TcpTransport × Bool
unfolding is_connected disconnect_internal
disconnect t =
    let (t', lost) = disconnect_internal t in
    if not (is_connected t) then (success, t, false) else (success, t', lost)

-- The bytes from the next one on that does not begin with a message id of 0.
unfoldable pub resync : List ℕ → List ℕ
resync [] = []
resync (x ∷ xs) =
    let rest = resync xs in
    if ltb (length (x ∷ xs)) 16 then [] else if read32 (x ∷ xs) 0 == 0 then rest else x ∷ xs

-- The value returned, the buffer, and the message that is there behind the call, if one is.
unfoldable pub parse_message_from_buffer : ℕ → ℕ → List ℕ → Bool × List ℕ × Option Message
parse_message_from_buffer max_receive_buffer now buffer =
    let len = read32 buffer 4 in
    let total = 8 + len in
    let (message, ok) = deserialize (default_message now) (take total buffer) now in
    if ltb max_receive_buffer (length buffer)
    then (false, [], none)
    else if ltb (length buffer) 16
    then (false, buffer, none)
    else if ltb len 8 || ltb 65535 len
    then (false, resync (drop 16 buffer), none)
    else if ltb (length buffer) total
    then (false, buffer, none)
    else (ok, drop total buffer, some message)

-- How many bytes the `recv` of an empty buffer asks for.
abbrev pub chunk_size : TcpTransport → ℕ
chunk_size t = min 4096 t.max_receive_buffer

-- What a `recv` comes to: bytes, nothing for now, or the end of the connection or an error.
pub data RecvOutcome : Type 0 where
  got : List ℕ → RecvOutcome
  empty : RecvOutcome
  lost : RecvOutcome

-- `receive_data` on a new buffer, with the bytes that are there to be received.
unfoldable pub receive_data : RecvOutcome → TcpTransport → Result × List ℕ
receive_data outcome t = if chunk_size t == 0 then (buffer_overflow, []) else elim outcome [
  | got bytes ↦ (success, take (chunk_size t) bytes)
  | empty ↦ (success, [])
  | lost ↦ (network_error, [])
]

-- What the listener hears in a round.
pub data Event : Type 0 where
  received : Message → Event
  connection_lost : Event
  failed : Result → Event

abbrev pub queued : ℕ → TcpTransport → Bool × List ℕ × Option Message → TcpTransport × List Event
queued now t (true, rest, some message) = (
  record t { message_queue = t.message_queue ++ message ∷ []; last_activity = now },
  received message ∷ [],
)
queued now t (true, rest, none) = (t, [])
queued now t (false, rest, message) = (t, [])

abbrev lost_events : Bool → Result → List Event
lost_events true result = connection_lost ∷ failed result ∷ []
lost_events false result = failed result ∷ []

abbrev pub heard : ℕ → TcpTransport → Result × List ℕ → TcpTransport × List Event
heard now t (success, []) = (t, [])
heard now t (success, x ∷ xs) =
    queued now t (parse_message_from_buffer t.max_receive_buffer now (x ∷ xs))
heard now t (result, bytes) =
    let (t', gone) = disconnect_internal t in (t', lost_events gone result)

-- A round of `receive_loop` of a client. The buffer is a new one in each round.
unfoldable pub receive_round : ℕ → RecvOutcome → TcpTransport → TcpTransport × List Event
unfolding is_connected disconnect_internal
receive_round now outcome t =
    if not (is_connected t) then (t, []) else heard now t (receive_data outcome t)

-- `connection_monitor_loop`: five minutes, in milliseconds.
unfoldable pub monitor_round : ℕ → TcpTransport → TcpTransport × Bool
unfolding is_connected disconnect_internal
monitor_round now t =
    if is_connected t && ltb 300000 (now - t.last_activity)
    then disconnect_internal t
    else (t, false)
