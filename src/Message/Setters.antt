-- ===== src/Message/Setters.antt =====
-- The setters of include/someip/message.h that change one field and leave the length field as it is,
-- and the one of the length field.
use opensomeip.Base.{ℕ}
use opensomeip.Types.{MessageId, RequestId}
use opensomeip.Message.{Message}

abbrev pub set_message_id : MessageId → Message → Message
set_message_id id m = record m { message_id = id }

abbrev pub set_length : ℕ → Message → Message
set_length length m = record m { length = length }

abbrev pub set_request_id : RequestId → Message → Message
set_request_id id m = record m { request_id = id }

abbrev pub set_protocol_version : ℕ → Message → Message
set_protocol_version version m = record m { protocol_version = version }

abbrev pub set_interface_version : ℕ → Message → Message
set_interface_version version m = record m { interface_version = version }

abbrev pub set_message_type : ℕ → Message → Message
set_message_type type m = record m { message_type = type }

abbrev pub set_return_code : ℕ → Message → Message
set_return_code code m = record m { return_code = code }

abbrev pub set_service_id : ℕ → Message → Message
set_service_id id m = record m { message_id = record m.message_id { service_id = id } }

abbrev pub set_method_id : ℕ → Message → Message
set_method_id id m = record m { message_id = record m.message_id { method_id = id } }

abbrev pub set_client_id : ℕ → Message → Message
set_client_id id m = record m { request_id = record m.request_id { client_id = id } }

abbrev pub set_session_id : ℕ → Message → Message
set_session_id id m = record m { request_id = record m.request_id { session_id = id } }

abbrev pub update_timestamp : ℕ → Message → Message
update_timestamp now m = record m { timestamp = now }
