-- ===== src/Message/Edits.antt =====
-- The length field under every operation that changes a message.
use opensomeip.Base.{
  ℕ, ◌+◌, ◌%◌, ◌^◌, ◌≤◌, ◌≡◌, refl, Bool, true, false, List, [], ◌∷◌, Option, none, some, arith,
  length,
}
use opensomeip.Types.{MessageId, RequestId}
use opensomeip.E2e.Header.{E2eHeader}
use opensomeip.Message.{
  Message, e2e_size, new_message, set_payload, set_e2e_header, clear_e2e_header, move_construct,
  move_assign, deserialize, is_valid,
}
use opensomeip.Message.Validity.{is_valid_sound}
use opensomeip.Message.Accepts.{deserialize-valid}
use opensomeip.Message.Setters.{
  set_message_id, set_length, set_request_id, set_protocol_version, set_interface_version,
  set_message_type, set_return_code, set_service_id, set_method_id, set_client_id, set_session_id,
  update_timestamp,
}

-- The length field counts what follows it, modulo the width of the field.
abbrev pub IsMeasured : Message → Type 0
IsMeasured m = m.length ≡ (8 + e2e_size m.e2e_header + length m.payload) % 2 ^ 32

pub data Edit : Type 0 where
  payload_set : List ℕ → Edit
  header_set : E2eHeader → Edit
  header_cleared moved moved_by_assignment : Edit
  message_id_set : MessageId → Edit
  request_id_set : RequestId → Edit
  service_id_set method_id_set client_id_set session_id_set : ℕ → Edit
  protocol_version_set interface_version_set message_type_set return_code_set : ℕ → Edit
  timestamp_updated length_set : ℕ → Edit
  read_from : List ℕ → ℕ → Edit

-- The message that an operation leaves, and for a move the message that takes over; a copy is the same
-- value as its original.
unfoldable pub edit : Edit → Message → Message
edit (payload_set payload) m = set_payload payload m
edit (header_set h) m = set_e2e_header h m
edit header_cleared m = clear_e2e_header m
edit moved m = (move_construct m).0
edit moved_by_assignment m = (move_assign m).0
edit (message_id_set id) m = set_message_id id m
edit (request_id_set id) m = set_request_id id m
edit (service_id_set id) m = set_service_id id m
edit (method_id_set id) m = set_method_id id m
edit (client_id_set id) m = set_client_id id m
edit (session_id_set id) m = set_session_id id m
edit (protocol_version_set version) m = set_protocol_version version m
edit (interface_version_set version) m = set_interface_version version m
edit (message_type_set type) m = set_message_type type m
edit (return_code_set code) m = set_return_code code m
edit (timestamp_updated now) m = update_timestamp now m
edit (length_set n) m = set_length n m
edit (read_from bytes now) m = (deserialize m bytes now).0

-- Whether the length field can be relied on behind an operation, if `before` says so before it.
unfoldable pub settles : Edit → Bool → Message → Bool
settles (payload_set payload) before m = true
settles (header_set h) before m = true
settles header_cleared before m = true
settles moved before m = true
settles moved_by_assignment before m = true
settles (length_set n) before m = false
settles (read_from bytes now) before m = (deserialize m bytes now).1
settles _ before m = before

unfoldable pub edits : List Edit → Message → Message
edits [] m = m
edits (e ∷ es) m = edits es (edit e m)

unfoldable pub settled : List Edit → Bool → Message → Bool
settled [] before m = before
settled (e ∷ es) before m = settled es (settles e before m) (edit e m)

e2e_size-le : (h : Option E2eHeader) → e2e_size h ≤ 12
e2e_size-le none = omega arith
e2e_size-le (some h) = omega arith

valid-IsMeasured : (m : Message) → is_valid m ≡ true → IsMeasured m
valid-IsMeasured m v =
    let valid = is_valid_sound m v in
    omega (arith, valid.length_exact, valid.payload_fits, e2e_size-le m.e2e_header)

edit-IsMeasured :
    (e : Edit) (before : Bool) (m : Message)
    → (before ≡ true → IsMeasured m)
    → settles e before m ≡ true
    → IsMeasured (edit e m)
unfolding edit settles set_payload set_e2e_header clear_e2e_header move_construct move_assign
edit-IsMeasured (payload_set payload) before m h s = refl
edit-IsMeasured (header_set header) before m h s = refl
edit-IsMeasured header_cleared before m h s = refl
edit-IsMeasured moved before m h s = refl
edit-IsMeasured moved_by_assignment before m h s = refl
edit-IsMeasured (message_id_set id) before m h s = h s
edit-IsMeasured (request_id_set id) before m h s = h s
edit-IsMeasured (service_id_set id) before m h s = h s
edit-IsMeasured (method_id_set id) before m h s = h s
edit-IsMeasured (client_id_set id) before m h s = h s
edit-IsMeasured (session_id_set id) before m h s = h s
edit-IsMeasured (protocol_version_set version) before m h s = h s
edit-IsMeasured (interface_version_set version) before m h s = h s
edit-IsMeasured (message_type_set type) before m h s = h s
edit-IsMeasured (return_code_set code) before m h s = h s
edit-IsMeasured (timestamp_updated now) before m h s = h s
edit-IsMeasured (length_set n) before m h s = cc
edit-IsMeasured (read_from bytes now) before m h s =
    valid-IsMeasured (deserialize m bytes now).0 (deserialize-valid m bytes now s)

edits-IsMeasured :
    (es : List Edit) (before : Bool) (m : Message)
    → (before ≡ true → IsMeasured m)
    → settled es before m ≡ true
    → IsMeasured (edits es m)
unfolding edits settled
edits-IsMeasured [] before m h s = h s
edits-IsMeasured (e ∷ es) before m h s =
    edits-IsMeasured es (settles e before m) (edit e m) (edit-IsMeasured e before m h) s

-- After any sequence of the operations that change a message, on a new one, the length field counts
-- the bytes behind it, modulo 2 ^ 32, unless since the last change of the payload or of the end-to-end
-- header, the last move and the last read that was accepted the length was set or a read was refused.
pub edits-new_message-IsMeasured :
    (es : List Edit) (id : MessageId) (request : RequestId) (type code now : ℕ)
    → settled es true (new_message id request type code now) ≡ true
    → IsMeasured (edits es (new_message id request type code now))
edits-new_message-IsMeasured es id request type code now s =
    edits-IsMeasured es true _ (λ t. unfold new_message in refl) s
