-- ===== src/Transport/Tests.antt =====
-- A message over TCP, and an instance of the theorem.
use opensomeip.Base.{ℕ, ◌≤◌, ◌<◌, ◌≡◌, refl, arith, min, true, [], ◌∷◌, length, take, none, some}
use opensomeip.Message.{Message, IsTyped}
use opensomeip.Transport.Tcp.{
  TcpTransport, connected, wrote, blocked, got, received, chunk_size, send_data, is_connected,
  send_message, receive_round,
}
use opensomeip.Transport.Chunks.{send_message-receive_round}
use opensomeip.Result.{success}
use opensomeip.Base.Map.{none-ne-some}
use opensomeip.E2e.Header as Header
use opensomeip.Message.RoundTrip.{IsUnambiguous}
use opensomeip.Message.{is_valid, has_valid_message_type, serialize}
use opensomeip.Types.{message_id_to_uint32, request_id_to_uint32}

abbrev ping : Message
ping = record {
  message_id = record { service_id = 0x1234; method_id = 0x0001 };
  length = 9;
  request_id = record { client_id = 0x5678; session_id = 0x0009 };
  protocol_version = 1;
  interface_version = 1;
  message_type = 0;
  return_code = 0;
  payload = 7 ∷ [];
  e2e_header = none;
  timestamp = 5;
}

ping-IsTyped : IsTyped ping
ping-IsTyped = record {
  id_fits = omega arith;
  length_fits = omega arith;
  request_fits = omega arith;
  protocol_fits = omega arith;
  interface_fits = omega arith;
  type_fits = omega arith;
  code_fits = omega arith;
  payload_fits = omega arith;
  e2e_fits = λ h e. cc;
}

ping_valid : is_valid ping ≡ true
unfolding is_valid has_valid_message_type
ping_valid = refl

ping-IsUnambiguous : IsUnambiguous ping.e2e_header ping.payload
unfolding Header.deserialize
ping-IsUnambiguous h e d = none-ne-some e

abbrev peer : TcpTransport
peer = record {
  max_receive_buffer = 65536;
  has_socket = true;
  state = connected;
  last_activity = 0;
  active_connections = 0;
  message_queue = [];
}

-- The bytes go out in two pieces, with a wait between them.
ping_sent : (send_message (wrote 5 ∷ blocked ∷ wrote 12 ∷ []) 6 ping peer).0 ≡ some success
unfolding send_message send_data serialize message_id_to_uint32 request_id_to_uint32
ping_sent = refl

send_message-receive_round_example :
    let bytes = (send_message (wrote 5 ∷ blocked ∷ wrote 12 ∷ []) 6 ping peer).2 in
    (length bytes ≤ chunk_size peer
      → receive_round 8 (got bytes) peer ≡ (
        record peer { message_queue = record ping { timestamp = 8 } ∷ []; last_activity = 8 },
        received (record ping { timestamp = 8 }) ∷ [],
      ))
    × ((k : ℕ)
        → min k (chunk_size peer) < length bytes
        → receive_round 8 (got (take k bytes)) peer ≡ (peer, []))
send_message-receive_round_example =
    send_message-receive_round (wrote 5 ∷ blocked ∷ wrote 12 ∷ []) 6 8 ping peer peer ping-IsTyped
      ping_valid ping-IsUnambiguous ping_sent (unfold is_connected in refl) (omega arith)
