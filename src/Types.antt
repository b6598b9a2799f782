-- ===== src/Types.antt =====
-- include/someip/types.h and src/someip/types.cpp: the identifiers of a message, its type and its
-- return code. A `uint8_t` enumeration is a byte, since a cast from the wire can hold any value.
pub mod MessageType
pub mod ReturnCode
pub mod Laws
use opensomeip.Base.{ℕ, ◌+◌, ◌*◌, ◌/◌, ◌%◌, ◌^◌, ◌<◌, bit_and, bit_or, Bool, ◌&&◌, ◌==◌}

abbrev pub someip_protocol_version : ℕ
someip_protocol_version = 0x01

abbrev pub someip_interface_version : ℕ
someip_interface_version = 0x01

pub record MessageId : Type 0 where
  pub service_id : ℕ
  pub method_id : ℕ

pub record RequestId : Type 0 where
  pub client_id : ℕ
  pub session_id : ℕ

-- `(static_cast<uint32_t>(hi) << 16) | lo`
abbrev pub join16 : ℕ → ℕ → ℕ
join16 hi lo = bit_or (hi * 2 ^ 16 % 2 ^ 32) lo

unfoldable pub message_id_to_uint32 : MessageId → ℕ
message_id_to_uint32 i = join16 i.service_id i.method_id

unfoldable pub message_id_from_uint32 : ℕ → MessageId
message_id_from_uint32 v = record {
  service_id = v / 2 ^ 16 % 2 ^ 16;
  method_id = bit_and v 0xffff % 2 ^ 16;
}

unfoldable pub request_id_to_uint32 : RequestId → ℕ
request_id_to_uint32 i = join16 i.client_id i.session_id

unfoldable pub request_id_from_uint32 : ℕ → RequestId
request_id_from_uint32 v = record {
  client_id = v / 2 ^ 16 % 2 ^ 16;
  session_id = bit_and v 0xffff % 2 ^ 16;
}

unfoldable pub message_id_eq : MessageId → MessageId → Bool
message_id_eq a b = a.service_id == b.service_id && a.method_id == b.method_id

unfoldable pub request_id_eq : RequestId → RequestId → Bool
request_id_eq a b = a.client_id == b.client_id && a.session_id == b.session_id

-- The fields are of type `uint16_t`.
abbrev pub IsMessageId : MessageId → Type 0
IsMessageId i = (i.service_id < 2 ^ 16) × (i.method_id < 2 ^ 16)

abbrev pub IsRequestId : RequestId → Type 0
IsRequestId i = (i.client_id < 2 ^ 16) × (i.session_id < 2 ^ 16)
