-- ===== src/Types/MessageType.antt =====
-- `enum class MessageType` and its predicates.
use opensomeip.Base.{ℕ, Bool, ◌||◌, ◌==◌, if◌then◌else◌, List, [], ◌∷◌, none, some}
use opensomeip.Base.Map.{find}
use Prim.Native.String.{String}

abbrev pub request : ℕ
request = 0x00

abbrev pub request_no_return : ℕ
request_no_return = 0x01

abbrev pub notification : ℕ
notification = 0x02

abbrev pub request_ack : ℕ
request_ack = 0x40

abbrev pub response : ℕ
response = 0x80

abbrev pub error : ℕ
error = 0x81

abbrev pub response_ack : ℕ
response_ack = 0xc0

abbrev pub error_ack : ℕ
error_ack = 0xc1

abbrev pub tp_request : ℕ
tp_request = 0x20

abbrev pub tp_request_no_return : ℕ
tp_request_no_return = 0x21

abbrev pub tp_notification : ℕ
tp_notification = 0x22

abbrev pub type_strings : List (ℕ × String)
type_strings =
    (request, "REQUEST")
    ∷ (request_no_return, "REQUEST_NO_RETURN")
    ∷ (notification, "NOTIFICATION")
    ∷ (request_ack, "REQUEST_ACK")
    ∷ (response, "RESPONSE")
    ∷ (error, "ERROR")
    ∷ (response_ack, "RESPONSE_ACK")
    ∷ (error_ack, "ERROR_ACK")
    ∷ (tp_request, "TP_REQUEST")
    ∷ (tp_request_no_return, "TP_REQUEST_NO_RETURN")
    ∷ (tp_notification, "TP_NOTIFICATION")
    ∷ []

unfoldable pub to_string : ℕ → String
unfolding find
to_string type = elim (find type type_strings) [ none ↦ "UNKNOWN_MESSAGE_TYPE" | some s ↦ s ]

unfoldable pub is_request : ℕ → Bool
is_request type =
    type == request
    || type == request_no_return
    || type == tp_request
    || type == tp_request_no_return

unfoldable pub is_response : ℕ → Bool
is_response type = type == response || type == error || type == response_ack || type == error_ack

unfoldable pub uses_tp : ℕ → Bool
uses_tp type = type == tp_request || type == tp_request_no_return || type == tp_notification

unfoldable pub get_ack_type : ℕ → ℕ
get_ack_type type =
    if type == request
    then request_ack
    else if type == response
    then response_ack
    else if type == error
    then error_ack
    else type
