-- ===== src/Message.antt =====
-- include/someip/message.h and src/someip/message.cpp: a message, its byte image and its checks.
-- `E2EHeader::get_header_size` is 12. The clock is an argument of the operations that read it.
pub mod Validity
pub mod Length
pub mod Fields
pub mod Plausible
pub mod RoundTrip
pub mod Accepts
pub mod Setters
pub mod Edits
pub mod Confusion
mod Tests
use opensomeip.Base.{
  ℕ, ◌+◌, ◌-◌, ◌*◌, ◌/◌, ◌%◌, ◌^◌, ◌≤◌, ◌<◌, bit_and, Bool, true, false, not, ◌&&◌, ◌||◌, ltb, leb,
  ◌==◌, ◌!=◌, if◌then◌else◌, List, [], ◌∷◌, ◌++◌, length, drop, Option, none, some, ◌≡◌, All,
}
use opensomeip.Base.Bytes.{IsByte, be32, byte_at, read32}
use opensomeip.Types.{
  MessageId, RequestId, IsMessageId, IsRequestId, message_id_to_uint32, message_id_from_uint32,
  request_id_to_uint32, request_id_from_uint32, someip_protocol_version, someip_interface_version,
}
use opensomeip.Types.MessageType
use opensomeip.Types.ReturnCode
use opensomeip.E2e.Header.{E2eHeader, IsE2eHeader, header_size}
use opensomeip.E2e.Header as Header

pub record Message : Type 0 where
  pub message_id : MessageId
  pub length : ℕ
  pub request_id : RequestId
  pub protocol_version : ℕ
  pub interface_version : ℕ
  pub message_type : ℕ
  pub return_code : ℕ
  pub payload : List ℕ
  pub e2e_header : Option E2eHeader
  pub timestamp : ℕ

abbrev pub max_tcp_payload_size : ℕ
max_tcp_payload_size = 65535

-- `e2e_header_.has_value() ? e2e_header_->get_header_size() : 0`
abbrev pub e2e_size : Option E2eHeader → ℕ
e2e_size none = 0
e2e_size (some h) = header_size

unfoldable pub get_total_size : Message → ℕ
get_total_size m = 16 + e2e_size m.e2e_header + length m.payload

unfoldable pub update_length : Message → Message
update_length m = record m { length = (8 + e2e_size m.e2e_header + length m.payload) % 2 ^ 32 }

unfoldable pub default_message : ℕ → Message
default_message now = record {
  message_id = record { service_id = 0; method_id = 0 };
  length = 8;
  request_id = record { client_id = 0; session_id = 0 };
  protocol_version = someip_protocol_version;
  interface_version = someip_interface_version;
  message_type = MessageType.request;
  return_code = ReturnCode.e_ok;
  payload = [];
  e2e_header = none;
  timestamp = now;
}

unfoldable pub new_message : MessageId → RequestId → ℕ → ℕ → ℕ → Message
unfolding update_length
new_message message_id request_id message_type return_code now = update_length (record {
  message_id = message_id;
  length = 8;
  request_id = request_id;
  protocol_version = someip_protocol_version;
  interface_version = someip_interface_version;
  message_type = message_type;
  return_code = return_code;
  payload = [];
  e2e_header = none;
  timestamp = now;
})

-- What is left of `other` after a move: its payload and its header are gone.
abbrev moved_from : Message → Message
moved_from other = record other {
  interface_version = 0xff;
  length = 8;
  payload = [];
  e2e_header = none;
}

-- The move constructor: the new message, and what becomes of `other`.
unfoldable pub move_construct : Message → Message × Message
unfolding update_length
move_construct other = (update_length other, moved_from other)

-- `*this = std::move(other)` for two distinct objects. The old value of `*this` is overwritten.
unfoldable pub move_assign : Message → Message × Message
unfolding update_length
move_assign other = (
  record (update_length other) { interface_version = someip_interface_version },
  moved_from other,
)

unfoldable pub set_payload : List ℕ → Message → Message
unfolding update_length
set_payload payload m = update_length (record m { payload = payload })

unfoldable pub set_e2e_header : E2eHeader → Message → Message
unfolding update_length
set_e2e_header header m = update_length (record m { e2e_header = some header })

unfoldable pub clear_e2e_header : Message → Message
unfolding update_length
clear_e2e_header m = update_length (record m { e2e_header = none })

abbrev pub e2e_bytes : Option E2eHeader → List ℕ
e2e_bytes none = []
e2e_bytes (some h) = Header.serialize h

unfoldable pub serialize : Message → List ℕ
serialize m =
    be32 (message_id_to_uint32 m.message_id)
    ++ (be32 m.length
        ++ (be32 (request_id_to_uint32 m.request_id)
            ++ (m.protocol_version
                ∷ m.interface_version
                ∷ m.message_type
                ∷ m.return_code
                ∷ (e2e_bytes m.e2e_header ++ m.payload))))

unfoldable pub has_valid_method_id : Message → Bool
has_valid_method_id m = not (m.message_id.method_id == 0xffff)

-- `has_valid_service_id`, `has_valid_client_id` and `has_valid_session_id` return `true`.
unfoldable pub has_valid_message_id : Message → Bool
unfolding has_valid_method_id
has_valid_message_id m = true && has_valid_method_id m

unfoldable pub has_valid_request_id : Message → Bool
has_valid_request_id m = true && true

unfoldable pub has_valid_length : Message → Bool
has_valid_length m = not (ltb m.length 8)

-- The labels of the `switch`, in its order.
unfoldable pub has_valid_message_type : Message → Bool
has_valid_message_type m =
    let type = m.message_type in
    type == MessageType.request
    || type == MessageType.request_no_return
    || type == MessageType.notification
    || type == MessageType.response
    || type == MessageType.error
    || type == MessageType.request_ack
    || type == MessageType.response_ack
    || type == MessageType.error_ack
    || type == MessageType.tp_request
    || type == MessageType.tp_request_no_return
    || type == MessageType.tp_notification

unfoldable pub has_tp_flag : Message → Bool
has_tp_flag m = MessageType.uses_tp m.message_type

-- The comparison of `expected_total_size` with `actual_total_size`, two names of one expression,
-- never fails, and is left out. The sixteen labels on the return code are the bytes 0x00 to 0x0F.
unfoldable pub has_valid_header : Message → Bool
unfolding has_valid_message_id has_valid_request_id has_valid_length
has_valid_header m =
    if not (has_valid_message_id m)
    then false
    else if not (has_valid_request_id m)
    then false
    else if not (has_valid_length m)
    then false
    else if not (has_valid_message_type m)
    then false
    else if m.protocol_version != someip_protocol_version
    then false
    else if m.interface_version != someip_interface_version
    then false
    else if m.length != (8 + e2e_size m.e2e_header + length m.payload) % 2 ^ 32
    then false
    else leb m.return_code 0x0f

unfoldable pub has_valid_payload : Message → Bool
has_valid_payload m = leb (length m.payload) max_tcp_payload_size

unfoldable pub is_valid : Message → Bool
unfolding has_valid_header has_valid_payload
is_valid m = has_valid_header m && has_valid_payload m

-- `(v >> 8 * i) & 0xFF`
abbrev pub byte_of : ℕ → ℕ → ℕ
byte_of v i = bit_and (v / 2 ^ (8 * i)) 0xff

unfoldable pub repeats32 : ℕ → Bool
repeats32 v = byte_of v 0 == byte_of v 1 && byte_of v 1 == byte_of v 2 && byte_of v 2 == byte_of v 3

unfoldable pub repeats16 : ℕ → Bool
repeats16 v = byte_of v 0 == byte_of v 1

unfoldable pub looks_like_payload_data : E2eHeader → Bool
looks_like_payload_data h = repeats32 h.crc || repeats32 h.counter || repeats16 h.freshness_value

unfoldable pub is_plausible : E2eHeader → Bool
is_plausible h =
    h.data_id != 0
    && (h.crc != 0 || h.counter != 0 || h.freshness_value != 0)
    && not (looks_like_payload_data h)

abbrev pub keep_plausible : Option E2eHeader → Option E2eHeader
keep_plausible none = none
keep_plausible (some h) = if is_plausible h then some h else none

-- The end-to-end header that `deserialize` finds behind the fixed header, for a length field.
unfoldable pub detect_e2e_header : ℕ → List ℕ → Option E2eHeader
detect_e2e_header len d =
    if leb header_size (length d - 16) && leb (8 + header_size) len
    then (if length d == 16 + header_size + (len - 8 - header_size)
        then keep_plausible (Header.deserialize d 16)
        else none)
    else none

-- The fixed header at offsets 0 to 15. The size is at least 16 here, so that the checks which the
-- source makes before each field pass.
unfoldable pub read_header : Message → List ℕ → Message
read_header m d = record m {
  message_id = message_id_from_uint32 (read32 d 0);
  length = read32 d 4;
  request_id = request_id_from_uint32 (read32 d 8);
  protocol_version = byte_at d 12;
  interface_version = byte_at d 13;
  message_type = byte_at d 14;
  return_code = byte_at d 15;
}

unfoldable pub read_payload : Message → List ℕ → ℕ → Message × Bool
read_payload m d now =
    let offset = 16 + e2e_size m.e2e_header in
    if ltb m.length 8
    then (m, false)
    else if (length d - offset) != (m.length - 8 - e2e_size m.e2e_header)
    then (m, false)
    else (let read = record m { payload = drop offset d; timestamp = now } in (read, is_valid read))

-- The message as the call leaves it, also where it returns `false`, and the value returned.
unfoldable pub deserialize : Message → List ℕ → ℕ → Message × Bool
deserialize m d now =
    if ltb (length d) 16
    then (m, false)
    else (let header = read_header m d in
        read_payload (record header { e2e_header = detect_e2e_header header.length d }) d now)

-- The ranges of the C++ types.
pub record IsTyped (m : Message) : Type 0 where
  pub id_fits : IsMessageId m.message_id
  pub length_fits : m.length < 2 ^ 32
  pub request_fits : IsRequestId m.request_id
  pub protocol_fits : IsByte m.protocol_version
  pub interface_fits : IsByte m.interface_version
  pub type_fits : IsByte m.message_type
  pub code_fits : IsByte m.return_code
  pub payload_fits : All IsByte m.payload
  pub e2e_fits : (h : E2eHeader) → m.e2e_header ≡ some h → IsE2eHeader h
