-- ===== src/Tp/Manager.antt =====
-- src/tp/tp_manager.cpp: the transfers of a sender and the reassembler of a receiver. The methods run
-- one after another, as the mutex has it for those that take it; handle_received_segment, update_config
-- and the setters do not. The start time and the retry count of a transfer are never read and left out,
-- as are the counters of `TpStatistics` that are never written, and the progress and the message
-- callback, which are never called. Times are in milliseconds.
pub mod Transfers
pub mod Channel
use opensomeip.Base.{
  ℕ, zero, suc, ◌+◌, ◌-◌, ◌*◌, ◌%◌, ◌^◌, Bool, true, false, ltb, leb, if◌then◌else◌, List, [], ◌∷◌,
  ◌++◌, length, get_elem?, Option, none, some,
}
use opensomeip.Base.Map.{find, insert, erase, retain}
use opensomeip.Message.{Message, serialize}
use opensomeip.Tp.{
  TpResult, TpMessageType, TpConfig, TpSegment, success, resource_exhausted, invalid_segment,
  timeout, single_message, first_segment, consecutive_segment, last_segment,
}
use opensomeip.Tp.Segmenter.{TpSegmenter}
use opensomeip.Tp.Segmenter as Segmenter
use opensomeip.Tp.Reassembler.{TpReassembler, process_segment}
use opensomeip.Tp.Reassembler as Reassembler

pub data TpTransferState : Type 0 where
  idle segmenting sending waiting_ack receiving reassembling complete failed timed_out :
      TpTransferState

pub record TpTransfer : Type 0 where
  pub transfer_id : ℕ
  pub message_id : ℕ
  pub state : TpTransferState
  pub segments : List TpSegment
  pub next_segment_to_send : ℕ
  pub last_activity : ℕ

pub record TpStatistics : Type 0 where
  pub messages_segmented : ℕ
  pub segments_sent : ℕ
  pub segments_received : ℕ
  pub timeouts : ℕ

pub record TpManager : Type 0 where
  pub config : TpConfig
  pub segmenter : TpSegmenter
  pub reassembler : TpReassembler
  pub active_transfers : List (ℕ × TpTransfer)
  pub next_transfer_id : ℕ
  pub statistics : TpStatistics
  pub has_completion_callback : Bool

abbrev pub new_statistics : TpStatistics
new_statistics = record {
  messages_segmented = 0;
  segments_sent = 0;
  segments_received = 0;
  timeouts = 0;
}

abbrev pub new_manager : TpConfig → TpManager
new_manager config = record {
  config = config;
  segmenter = record { config = config; next_sequence_number = 0 };
  reassembler = record { config = config; reassembly_buffers = [] };
  active_transfers = [];
  next_transfer_id = 1;
  statistics = new_statistics;
  has_completion_callback = false;
}

unfoldable pub shutdown : TpManager → TpManager
shutdown m = record m { active_transfers = [] }

unfoldable pub needs_segmentation : Message → TpManager → Bool
needs_segmentation message m = ltb m.config.max_segment_size (length (serialize message))

abbrev pub new_transfer : ℕ → ℕ → ℕ → List TpSegment → TpTransfer
new_transfer now id message_id segments = record {
  transfer_id = id;
  message_id = message_id;
  state = sending;
  segments = segments;
  next_segment_to_send = 0;
  last_activity = now;
}

-- The id of a message as `segment_message` puts it together.
abbrev pub message_number : Message → ℕ
message_number message = message.message_id.service_id * 2 ^ 16 + message.message_id.method_id

-- What `segment_message` does once the segmenter has returned, for a transfer id.
abbrev pub started :
    ℕ
    → Message
    → ℕ
    → TpManager
    → Option (TpResult × TpSegmenter × List TpSegment)
    → Option (TpResult × ℕ × TpManager)
started now message id m none = none
started now message id m (some (success, s, segments)) = some (
  success,
  id,
  record m {
    segmenter = s;
    next_transfer_id = (id + 1) % 2 ^ 32;
    active_transfers =
        insert id (new_transfer now id (message_number message) segments) m.active_transfers;
    statistics = record m.statistics {
      messages_segmented = (m.statistics.messages_segmented + 1) % 2 ^ 32;
    };
  },
)
started now message id m (some (result, s, segments)) =
    some (result, id, record m { segmenter = s; next_transfer_id = (id + 1) % 2 ^ 32 })

-- The result, the transfer id as the call leaves it, and the manager; `none` is a segmenter that has
-- not returned within the fuel.
unfoldable pub segment_message : ℕ → ℕ → Message → ℕ → TpManager → Option (TpResult × ℕ × TpManager)
segment_message fuel now message transfer_id m =
    let cut = Segmenter.segment_message fuel m.segmenter message [] in
    if leb m.config.max_concurrent_transfers (length m.active_transfers)
    then some (resource_exhausted, transfer_id, m)
    else started now message m.next_transfer_id m cut

-- `TpSegment()`
abbrev pub empty_segment : TpSegment
empty_segment = record {
  header = record {
    message_length = 0;
    segment_offset = 0;
    segment_length = 0;
    sequence_number = 0;
    message_type = single_message;
  };
  payload = [];
}

unfoldable pub next_of_transfer : ℕ → ℕ → TpTransfer → TpManager → TpManager × TpSegment
next_of_transfer now id t m = elim (get_elem? t.segments t.next_segment_to_send) [
  | none ↦ (
    record m { active_transfers = insert id (record t { state = complete }) m.active_transfers },
    empty_segment,
  )
  | some s ↦ (
    record m {
      active_transfers =
          insert id
            (record t { next_segment_to_send = t.next_segment_to_send + 1; last_activity = now })
            m.active_transfers;
      statistics = record m.statistics {
        segments_sent = (m.statistics.segments_sent + 1) % 2 ^ 32;
      };
    },
    s,
  )
]

-- The result, the manager, and the segment as the call leaves it.
unfoldable pub get_next_segment : ℕ → ℕ → TpSegment → TpManager → TpResult × TpManager × TpSegment
unfolding next_of_transfer
get_next_segment now transfer_id segment m = elim (find transfer_id m.active_transfers) [
  | none ↦ (invalid_segment, m, segment)
  | some t ↦ let (m', s) = next_of_transfer now transfer_id t m in (success, m', s)
]

abbrev pub is_single : TpMessageType → Bool
is_single single_message = true
is_single first_segment = false
is_single consecutive_segment = false
is_single last_segment = false

abbrev pub count_received : TpManager → TpManager
count_received m = record m {
  statistics = record m.statistics {
    segments_received = (m.statistics.segments_received + 1) % 2 ^ 32;
  };
}

-- The value returned, the manager, and what `complete_message` holds behind the call.
unfoldable pub handle_received_segment :
    ℕ → TpSegment → TpManager → List ℕ → Bool × TpManager × List ℕ
handle_received_segment now s m out =
    let (ok, r, out') = process_segment now s m.reassembler out in
    if is_single s.header.message_type
    then (true, count_received m, s.payload)
    else (ok, record (count_received m) { reassembler = r }, out')

unfoldable pub acknowledge_segments : ℕ → ℕ → TpManager → TpResult × TpManager
acknowledge_segments now transfer_id m = elim (find transfer_id m.active_transfers) [
  | none ↦ (invalid_segment, m)
  | some t ↦ (
    success,
    record m {
      active_transfers = insert transfer_id (record t { last_activity = now }) m.active_transfers;
    },
  )
]

unfoldable pub cancel_transfer : ℕ → TpManager → TpResult × TpManager
cancel_transfer transfer_id m = elim (find transfer_id m.active_transfers) [
  | none ↦ (invalid_segment, m)
  | some t ↦ (success, record m { active_transfers = erase transfer_id m.active_transfers })
]

unfoldable pub get_transfer_status : ℕ → TpManager → TpTransferState
get_transfer_status transfer_id m = elim (find transfer_id m.active_transfers) [
  | none ↦ failed
  | some t ↦ t.state
]

abbrev pub is_finished : TpTransferState → Bool
is_finished complete = true
is_finished failed = true
is_finished idle = false
is_finished segmenting = false
is_finished sending = false
is_finished waiting_ack = false
is_finished receiving = false
is_finished reassembling = false
is_finished timed_out = false

-- The transfers that stay, and the ids of those that have timed out.
unfoldable pub expire : ℕ → ℕ → List (ℕ × TpTransfer) → List (ℕ × TpTransfer) × List ℕ
expire now limit [] = ([], [])
expire now limit ((id, t) ∷ rest) =
    let (kept, gone) = expire now limit rest in
    if ltb limit (now - t.last_activity)
    then (kept, t.transfer_id ∷ gone)
    else ((id, t) ∷ kept, gone)

unfoldable pub cleanup_completed_transfers : List (ℕ × TpTransfer) → List (ℕ × TpTransfer)
cleanup_completed_transfers [] = []
cleanup_completed_transfers ((id, t) ∷ rest) =
    let kept = cleanup_completed_transfers rest in
    if is_finished t.state then kept else (id, t) ∷ kept

-- The manager, and the transfer ids for which the completion callback is called with `timeout`.
unfoldable pub process_timeouts : ℕ → TpManager → TpManager × List ℕ
process_timeouts now m =
    let (kept, gone) = expire now m.config.reassembly_timeout m.active_transfers in
    (
      record m {
        active_transfers = cleanup_completed_transfers kept;
        reassembler = Reassembler.process_timeouts now m.reassembler;
        statistics = record m.statistics {
          timeouts = (m.statistics.timeouts + length gone) % 2 ^ 32;
        };
      },
      if m.has_completion_callback then gone else [],
    )

unfoldable pub update_config : TpConfig → TpManager → TpManager
update_config config m = record m {
  config = config;
  segmenter = Segmenter.update_config config m.segmenter;
  reassembler = Reassembler.update_config config m.reassembler;
}

unfoldable pub set_completion_callback : Bool → TpManager → TpManager
set_completion_callback callback m = record m { has_completion_callback = callback }
