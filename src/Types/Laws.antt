-- ===== src/Types/Laws.antt =====
-- The two 16-bit halves of an identifier and its 32-bit form.
use opensomeip.Base.{ℕ, ◌+◌, ◌*◌, ◌/◌, ◌%◌, ◌^◌, ◌<◌, ◌≡◌, ◌↔◌, true, bit_and, arith}
use opensomeip.Base.Bits.{bit_or_fields, bit_and_mask}
use opensomeip.Types.{
  MessageId, RequestId, IsMessageId, IsRequestId, join16, message_id_to_uint32,
  message_id_from_uint32, request_id_to_uint32, request_id_from_uint32, message_id_eq,
}

pub join16_sum : (hi lo : ℕ) → hi < 2 ^ 16 → lo < 2 ^ 16 → join16 hi lo ≡ hi * 2 ^ 16 + lo
join16_sum hi lo h l = ground (arith, bit_or_fields 16 hi lo l)

pub mask16 : (v : ℕ) → bit_and v 0xffff ≡ v % 2 ^ 16
mask16 v = bit_and_mask 16 v

pub message_id_to_uint32-lt : (i : MessageId) → IsMessageId i → message_id_to_uint32 i < 2 ^ 32
unfolding message_id_to_uint32
message_id_to_uint32-lt i h = omega (arith, join16_sum i.service_id i.method_id h.0 h.1)

pub request_id_to_uint32-lt : (i : RequestId) → IsRequestId i → request_id_to_uint32 i < 2 ^ 32
unfolding request_id_to_uint32
request_id_to_uint32-lt i h = omega (arith, join16_sum i.client_id i.session_id h.0 h.1)

pub message_id_from_uint32-to_uint32 :
    (i : MessageId) → IsMessageId i → message_id_from_uint32 (message_id_to_uint32 i) ≡ i
unfolding message_id_to_uint32 message_id_from_uint32
message_id_from_uint32-to_uint32 i h =
    rw (join16_sum i.service_id i.method_id h.0 h.1, mask16) (ground arith)

pub request_id_from_uint32-to_uint32 :
    (i : RequestId) → IsRequestId i → request_id_from_uint32 (request_id_to_uint32 i) ≡ i
unfolding request_id_to_uint32 request_id_from_uint32
request_id_from_uint32-to_uint32 i h =
    rw (join16_sum i.client_id i.session_id h.0 h.1, mask16) (ground arith)

pub message_id_to_uint32-from_uint32 :
    (v : ℕ) → v < 2 ^ 32 → message_id_to_uint32 (message_id_from_uint32 v) ≡ v
unfolding message_id_to_uint32 message_id_from_uint32
message_id_to_uint32-from_uint32 v h =
    omega (arith, join16_sum (v / 2 ^ 16 % 2 ^ 16) (bit_and v 0xffff % 2 ^ 16), mask16 v)

pub request_id_to_uint32-from_uint32 :
    (v : ℕ) → v < 2 ^ 32 → request_id_to_uint32 (request_id_from_uint32 v) ≡ v
unfolding request_id_to_uint32 request_id_from_uint32
request_id_to_uint32-from_uint32 v h =
    omega (arith, join16_sum (v / 2 ^ 16 % 2 ^ 16) (bit_and v 0xffff % 2 ^ 16), mask16 v)

pub message_id_from_uint32-IsMessageId : (v : ℕ) → IsMessageId (message_id_from_uint32 v)
unfolding message_id_from_uint32
message_id_from_uint32-IsMessageId v = omega arith

pub request_id_from_uint32-IsRequestId : (v : ℕ) → IsRequestId (request_id_from_uint32 v)
unfolding request_id_from_uint32
request_id_from_uint32-IsRequestId v = omega arith

pub message_id_eq_iff : (a b : MessageId) → (message_id_eq a b ≡ true) ↔ (a ≡ b)
unfolding message_id_eq
message_id_eq_iff a b = ground arith
