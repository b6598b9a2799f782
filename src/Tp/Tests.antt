-- ===== src/Tp/Tests.antt =====
-- A message cut up and put together again, and instances of the theorems.
use opensomeip.Base.{
  ℕ, ◌+◌, ◌≡◌, refl, true, false, List, [], ◌∷◌, length, replicate, length-replicate, none, some,
  arith,
}
use opensomeip.Base.Map.{find, insert}
use opensomeip.Message.{Message}
use opensomeip.Tp.{TpConfig, TpSegment, success, first_segment}
use opensomeip.Tp.Segmenter as Segmenter
use opensomeip.Tp.Segmenter.{TpSegmenter, segment_message, single_of}
use opensomeip.Tp.Reassembler.{TpReassembler, process_segment, validate_segment}
use opensomeip.Tp.Reassembler.Delivery.{process_all}
use opensomeip.Tp.InOrder.{segment_message-in_order}
use opensomeip.Tp.Segmenter.{serialize_tp_header}
use opensomeip.Tp.Reassembler.{parse_tp_header}
use opensomeip.Tp.Wire.{parse_tp_header-serialize_tp_header}
use opensomeip.Tp.Manager.{
  TpManager, new_manager, segment_message as start_transfer, get_next_segment, get_transfer_status,
  empty_segment, complete, new_transfer, update_config,
}
use opensomeip.Tp.Manager.Transfers.{
  here, next, configures, cuts, fetches, IsWellFormed, Reach-new_manager-IsWellFormed,
}
use opensomeip.Tp.Manager.Channel.{fetch_all, handle_all, channel_delivers}
use opensomeip.Tp.Limits.{segment_message_endless, process_segment-single, process_segment_empty}

-- Segments of at most 24 bytes.
abbrev small_config : TpConfig
small_config = record {
  max_segment_size = 24;
  max_message_size = 1000000;
  max_retries = 3;
  retry_timeout = 500;
  reassembly_timeout = 5000;
  max_concurrent_transfers = 10;
  enable_acknowledgments = true;
}

abbrev segmenter : TpSegmenter
segmenter = record { config = small_config; next_sequence_number = 255 }

abbrev reassembler : TpReassembler
reassembler = record { config = small_config; reassembly_buffers = [] }

abbrev upload : List ℕ → Message
upload payload = record {
  message_id = record { service_id = 0x1234; method_id = 0x0001 };
  length = 8 + length payload;
  request_id = record { client_id = 0x5678; session_id = 0x0009 };
  protocol_version = 1;
  interface_version = 1;
  message_type = 0;
  return_code = 0;
  payload = payload;
  e2e_header = none;
  timestamp = 5;
}

segment_message-in_order_example :
    (ss : List TpSegment) × (s' : TpSegmenter) × (segment_message 30 segmenter
        (upload (replicate 30 7))
        []
      ≡ some (success, s', ss))
    × (process_all (λ s. 5) ss reassembler [] ≡ (true, reassembler, replicate 30 7))
segment_message-in_order_example =
    segment_message-in_order (λ s. 5) segmenter (omega arith) (omega arith)
      (upload (replicate 30 7)) (omega arith) (omega arith) reassembler [] (omega arith)
      (unfold find in refl) [] (omega arith)

-- A payload that no 16-bit offset can pass over.
zeros : List ℕ
zeros = replicate 70000 0

segment_message_endless_example : segment_message 1000 segmenter (upload zeros) [] ≡ none
segment_message_endless_example =
    segment_message_endless 1000 segmenter (upload zeros) [] (omega (arith, many))
      (omega (arith, many)) (omega (arith, many)) (omega (arith, many))
  where
    many : length zeros ≡ 70000
    many = unfold zeros in length-replicate {A = ℕ} 70000 0

process_segment-single_example :
    process_segment 5 (single_of (upload (1 ∷ 2 ∷ [])) 3) reassembler [] ≡ (false, reassembler, [])
process_segment-single_example =
    process_segment-single 5 (upload (1 ∷ 2 ∷ [])) 3 reassembler [] (omega arith)

abbrev bare_segment : TpSegment
bare_segment = record {
  header = record {
    message_length = 3;
    segment_offset = 0;
    segment_length = 20;
    sequence_number = 4;
    message_type = first_segment;
  };
  payload = replicate 20 9;
}

process_segment_empty_example :
    process_segment 5 bare_segment reassembler [] ≡ (true, reassembler, 0 ∷ 0 ∷ 0 ∷ [])
process_segment_empty_example =
    process_segment_empty 5 bare_segment reassembler [] refl (unfold validate_segment in refl)
      (omega arith) (unfold find in refl)

-- The offset of the second segment under the default segment size.
parse_tp_header-serialize_tp_header_example :
    parse_tp_header (serialize_tp_header (replicate 18 9) 1372 true) ≡ some (1360, true)
parse_tp_header-serialize_tp_header_example =
    parse_tp_header-serialize_tp_header (replicate 18 9) 1372 true (omega arith) (omega arith)

abbrev sender : TpManager
sender = new_manager small_config

abbrev short_message : Message
short_message = upload (1 ∷ 2 ∷ [])

-- The sender with a transfer of one segment.
abbrev busy : TpManager
busy = record sender {
  next_transfer_id = 2;
  active_transfers = (1, new_transfer 4 1 0x12340001 (single_of short_message 0 ∷ [])) ∷ [];
  segmenter = record { config = small_config; next_sequence_number = 1 };
  statistics = record sender.statistics { messages_segmented = 1 };
}

starts_short : start_transfer 0 4 short_message 0 sender ≡ some (success, 1, busy)
unfolding start_transfer Segmenter.segment_message insert
starts_short = refl

Reach-new_manager-IsWellFormed_example : IsWellFormed 10 (
    update_config
      (record small_config { max_concurrent_transfers = 0 })
      (get_next_segment 9 1 empty_segment busy).1)
Reach-new_manager-IsWellFormed_example =
    Reach-new_manager-IsWellFormed small_config 10
      (update_config (record small_config { max_concurrent_transfers = 0 })
        (get_next_segment 9 1 empty_segment busy).1)
      (configures (record small_config { max_concurrent_transfers = 0 })
        (next (next here (cuts 0 4 0 1 short_message success starts_short))
          (fetches 9 1 empty_segment)))

channel_delivers_example :
    (ss : List TpSegment) × (a' : TpManager) × (a'' : TpManager) × (start_transfer
        (length {A = ℕ} (replicate 30 7))
        4
        (upload (replicate 30 7))
        0
        sender
      ≡ some (success, 1, a'))
    × (fetch_all (length ss) 4 1 a' ≡ (ss, a''))
    × (get_transfer_status 1 (get_next_segment 4 1 empty_segment a'').1 ≡ complete)
    × ((handle_all (λ s. 5) ss sender []).0 ≡ true)
    × ((handle_all (λ s. 5) ss sender []).2 ≡ replicate 30 7)
    × ((handle_all (λ s. 5) ss sender []).1.reassembler ≡ sender.reassembler)
channel_delivers_example =
    channel_delivers sender sender (upload (replicate 30 7)) 4 0 (λ s. 5) [] (omega arith)
      (omega arith) (omega arith) (omega arith) (omega arith) (omega arith) (omega arith)
      (unfold find in refl)
