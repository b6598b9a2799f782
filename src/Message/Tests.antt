-- ===== src/Message/Tests.antt =====
-- Messages at which the operations are run, and instances of the theorems.
use opensomeip.Base.{ℕ, ◌≡◌, refl, true, false, List, [], ◌∷◌, ◌++◌, none, some, arith}
use opensomeip.Types.{message_id_to_uint32, request_id_to_uint32}
use opensomeip.E2e.Header.{E2eHeader, IsE2eHeader}
use opensomeip.E2e.Header as Header
use opensomeip.Message.{
  Message, IsTyped, serialize, deserialize, is_valid, has_valid_message_type, default_message,
  new_message,
}
use opensomeip.Message.Plausible.{IsDetectable}
use opensomeip.Message.Validity.{IsValid, is_valid_iff}
use opensomeip.Message.Edits.{
  IsMeasured, edit, edits, settles, settled, edits-new_message-IsMeasured, payload_set, header_set,
  moved, length_set, service_id_set,
}
use opensomeip.Message.RoundTrip.{deserialize-serialize}
use opensomeip.Message.Accepts.{serialize-deserialize, deserialize_truncated}
use opensomeip.Message.Confusion.{header_lost, header_forged}
use mathlib.Core.Logic.{◌↔◌}

abbrev header : E2eHeader
header = record { crc = 0x12345678; counter = 258; data_id = 7; freshness_value = 0x0102 }

-- As `protect` builds it with the counter and the freshness value disabled.
abbrev bare_header : E2eHeader
bare_header = record { crc = 0x1234; counter = 0; data_id = 7; freshness_value = 0 }

abbrev call : Message
call = record {
  message_id = record { service_id = 0x1234; method_id = 0x0001 };
  length = 11;
  request_id = record { client_id = 0x5678; session_id = 0x0009 };
  protocol_version = 1;
  interface_version = 1;
  message_type = 0;
  return_code = 0;
  payload = 1 ∷ 2 ∷ 3 ∷ [];
  e2e_header = none;
  timestamp = 5;
}

abbrev protected_call : Message
protected_call = record call { length = 23; e2e_header = some header }

abbrev bare_call : Message
bare_call = record call { length = 23; e2e_header = some bare_header }

abbrev look_alike : Message
look_alike = record call { length = 23; payload = Header.serialize header ++ (1 ∷ 2 ∷ 3 ∷ []) }

call_image :
    serialize call
    ≡ 0x12 ∷ 0x34 ∷ 0x00 ∷ 0x01 ∷ 0 ∷ 0 ∷ 0 ∷ 11 ∷ 0x56 ∷ 0x78 ∷ 0 ∷ 9 ∷ 1 ∷ 1 ∷ 0 ∷ 0 ∷ 1 ∷ 2 ∷ 3
      ∷ []
unfolding serialize message_id_to_uint32 request_id_to_uint32
call_image = refl

call-IsTyped : IsTyped call
call-IsTyped = record {
  id_fits = omega arith;
  length_fits = omega arith;
  request_fits = omega arith;
  protocol_fits = omega arith;
  interface_fits = omega arith;
  type_fits = omega arith;
  code_fits = omega arith;
  payload_fits = omega arith;
  e2e_fits = λ h e. cc;
}

call_valid : is_valid call ≡ true
unfolding is_valid has_valid_message_type
call_valid = refl

header-IsDetectable : IsDetectable header
header-IsDetectable = omega arith

some_fits : (g h : E2eHeader) → IsE2eHeader g → some g ≡ some h → IsE2eHeader h
some_fits g h fits e = ground arith

protected_call-IsTyped : IsTyped protected_call
protected_call-IsTyped = record {
  id_fits = omega arith;
  length_fits = omega arith;
  request_fits = omega arith;
  protocol_fits = omega arith;
  interface_fits = omega arith;
  type_fits = omega arith;
  code_fits = omega arith;
  payload_fits = omega arith;
  e2e_fits = λ h e. some_fits header h (omega arith) e;
}

protected_call_valid : is_valid protected_call ≡ true
unfolding is_valid has_valid_message_type
protected_call_valid = refl

bare_call-IsTyped : IsTyped bare_call
bare_call-IsTyped = record {
  id_fits = omega arith;
  length_fits = omega arith;
  request_fits = omega arith;
  protocol_fits = omega arith;
  interface_fits = omega arith;
  type_fits = omega arith;
  code_fits = omega arith;
  payload_fits = omega arith;
  e2e_fits = λ h e. some_fits bare_header h (omega arith) e;
}

bare_call_valid : is_valid bare_call ≡ true
unfolding is_valid has_valid_message_type
bare_call_valid = refl

bare_header-hidden : ¬ IsDetectable bare_header
bare_header-hidden d = d.mixed_counter refl

look_alike-IsTyped : IsTyped look_alike
unfolding Header.serialize
look_alike-IsTyped = record {
  id_fits = omega arith;
  length_fits = omega arith;
  request_fits = omega arith;
  protocol_fits = omega arith;
  interface_fits = omega arith;
  type_fits = omega arith;
  code_fits = omega arith;
  payload_fits = omega arith;
  e2e_fits = λ h e. cc;
}

look_alike_valid : is_valid look_alike ≡ true
unfolding is_valid has_valid_message_type Header.serialize
look_alike_valid = refl

call_front : List ℕ
call_front = 0x12 ∷ 0x34 ∷ 0x00 ∷ 0x01 ∷ 0 ∷ 0 ∷ 0 ∷ 11 ∷ 0x56 ∷ 0x78 ∷ 0 ∷ 9 ∷ 1 ∷ 1 ∷ 0 ∷ 0 ∷ []

is_valid_iff_example : (is_valid call ≡ true) ↔ IsValid call
is_valid_iff_example = is_valid_iff call

edits-new_message-IsMeasured_example : IsMeasured (
    edits
      (length_set 3 ∷ payload_set (1 ∷ 2 ∷ []) ∷ header_set header ∷ moved ∷ service_id_set 9 ∷ [])
      (new_message call.message_id call.request_id 0 0 5))
edits-new_message-IsMeasured_example =
    edits-new_message-IsMeasured
      (length_set 3 ∷ payload_set (1 ∷ 2 ∷ []) ∷ header_set header ∷ moved ∷ service_id_set 9 ∷ [])
      call.message_id call.request_id 0 0 5 (unfold settled settles edit in refl)

deserialize-serialize_example :
    deserialize (default_message 0) (serialize protected_call) 9
    ≡ (record protected_call { timestamp = 9 }, true)
deserialize-serialize_example =
    deserialize-serialize (default_message 0) protected_call 9 protected_call-IsTyped
      protected_call_valid header-IsDetectable

serialize-deserialize_example :
    (serialize (record call { timestamp = 9 }) ≡ serialize call)
    × IsValid (record call { timestamp = 9 })
    × (◌≡◌ {A = ℕ} 9 9)
serialize-deserialize_example =
    serialize-deserialize (default_message 0) (record call { timestamp = 9 }) (serialize call) 9
      (unfold serialize message_id_to_uint32 request_id_to_uint32 in omega arith)
      (deserialize-serialize (default_message 0) call 9 call-IsTyped call_valid
        (unfold Header.deserialize in λ h e. cc))

deserialize_truncated_example : (deserialize (default_message 0) call_front 9).1 ≡ false
deserialize_truncated_example =
    deserialize_truncated (default_message 0) call call_front (2 ∷ 3 ∷ []) 1 9 call-IsTyped
      call_valid (unfold call_front in omega arith)
      (unfold serialize message_id_to_uint32 request_id_to_uint32 call_front in refl)

header_lost_example : deserialize (default_message 0) (serialize bare_call) 9 ≡ (
  record bare_call {
    e2e_header = none;
    payload = Header.serialize bare_header ++ (1 ∷ 2 ∷ 3 ∷ []);
    timestamp = 9;
  },
  true,
)
header_lost_example =
    header_lost (default_message 0) bare_call bare_header 9 bare_call-IsTyped bare_call_valid refl
      bare_header-hidden (omega arith)

header_forged_example : deserialize (default_message 0) (serialize look_alike) 9 ≡ (
  record look_alike { e2e_header = some header; payload = 1 ∷ 2 ∷ 3 ∷ []; timestamp = 9 },
  true,
)
header_forged_example =
    header_forged (default_message 0) look_alike header (1 ∷ 2 ∷ 3 ∷ []) 9 look_alike-IsTyped
      look_alike_valid refl refl (omega arith) header-IsDetectable
