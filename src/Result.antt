-- ===== src/Result.antt =====
-- include/common/result.h and src/common/result.cpp: the result codes of the stack.
use opensomeip.Base.{ℕ, Bool, true, false, not, List, [], ◌∷◌, none, some}
use opensomeip.Base.Map.{find}
use Prim.Native.String.{String}

pub data Result : Type 0 where
  success network_error not_connected connection_lost connection_refused timeout : Result
  invalid_endpoint invalid_message invalid_message_type invalid_service_id : Result
  invalid_method_id invalid_protocol_version invalid_interface_version malformed_message : Result
  invalid_session_id session_expired session_not_found out_of_memory buffer_overflow : Result
  resource_exhausted service_not_found service_unavailable subscription_failed : Result
  safety_violation fault_detected recovery_failed not_implemented invalid_argument : Result
  permission_denied internal_error not_initialized invalid_state unknown_error : Result

-- The values of the enumeration.
unfoldable pub value : Result → ℕ
value success = 0x00
value network_error = 0x01
value not_connected = 0x02
value connection_lost = 0x03
value connection_refused = 0x04
value timeout = 0x05
value invalid_endpoint = 0x06
value invalid_message = 0x10
value invalid_message_type = 0x11
value invalid_service_id = 0x12
value invalid_method_id = 0x13
value invalid_protocol_version = 0x14
value invalid_interface_version = 0x15
value malformed_message = 0x16
value invalid_session_id = 0x20
value session_expired = 0x21
value session_not_found = 0x22
value out_of_memory = 0x30
value buffer_overflow = 0x31
value resource_exhausted = 0x32
value service_not_found = 0x40
value service_unavailable = 0x41
value subscription_failed = 0x42
value safety_violation = 0x50
value fault_detected = 0x51
value recovery_failed = 0x52
value not_implemented = 0x60
value invalid_argument = 0x61
value permission_denied = 0x62
value internal_error = 0x63
value not_initialized = 0x64
value invalid_state = 0x65
value unknown_error = 0xff

-- The table of the source, under the values of its keys.
abbrev result_strings : List (ℕ × String)
result_strings =
    (0x00, "SUCCESS")
    ∷ (0x01, "NETWORK_ERROR")
    ∷ (0x03, "CONNECTION_LOST")
    ∷ (0x04, "CONNECTION_REFUSED")
    ∷ (0x05, "TIMEOUT")
    ∷ (0x06, "INVALID_ENDPOINT")
    ∷ (0x10, "INVALID_MESSAGE")
    ∷ (0x11, "INVALID_MESSAGE_TYPE")
    ∷ (0x12, "INVALID_SERVICE_ID")
    ∷ (0x13, "INVALID_METHOD_ID")
    ∷ (0x14, "INVALID_PROTOCOL_VERSION")
    ∷ (0x15, "INVALID_INTERFACE_VERSION")
    ∷ (0x16, "MALFORMED_MESSAGE")
    ∷ (0x20, "INVALID_SESSION_ID")
    ∷ (0x21, "SESSION_EXPIRED")
    ∷ (0x22, "SESSION_NOT_FOUND")
    ∷ (0x30, "OUT_OF_MEMORY")
    ∷ (0x31, "BUFFER_OVERFLOW")
    ∷ (0x32, "RESOURCE_EXHAUSTED")
    ∷ (0x40, "SERVICE_NOT_FOUND")
    ∷ (0x41, "SERVICE_UNAVAILABLE")
    ∷ (0x42, "SUBSCRIPTION_FAILED")
    ∷ (0x50, "SAFETY_VIOLATION")
    ∷ (0x51, "FAULT_DETECTED")
    ∷ (0x52, "RECOVERY_FAILED")
    ∷ (0x60, "NOT_IMPLEMENTED")
    ∷ (0x61, "INVALID_ARGUMENT")
    ∷ (0x62, "PERMISSION_DENIED")
    ∷ (0x63, "INTERNAL_ERROR")
    ∷ (0x64, "NOT_INITIALIZED")
    ∷ (0x65, "INVALID_STATE")
    ∷ (0xff, "UNKNOWN_ERROR")
    ∷ []

unfoldable pub to_string : Result → String
unfolding find value
to_string result = elim (find (value result) result_strings) [
  | none ↦ "UNKNOWN_RESULT"
  | some s ↦ s
]

unfoldable pub is_success : Result → Bool
is_success success = true
is_success _ = false

unfoldable pub is_error : Result → Bool
unfolding is_success
is_error result = not (is_success result)
