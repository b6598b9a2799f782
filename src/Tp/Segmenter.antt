-- ===== src/Tp/Segmenter.antt =====
-- src/tp/tp_segmenter.cpp. The payload offset is a `uint16_t`; `max_segment_size` is a `uint32_t`,
-- whose differences wrap around.
pub mod Chunks
use opensomeip.Base.{
  ℕ, zero, suc, ◌+◌, ◌-◌, ◌*◌, ◌/◌, ◌%◌, ◌^◌, min, bit_or, Bool, ltb, leb, if◌then◌else◌, List, [],
  ◌∷◌, ◌++◌, length, take, drop, Option, none, some,
}
use opensomeip.Base.Bytes.{be32}
use opensomeip.Message.{Message}
use opensomeip.Message as Msg
use opensomeip.Tp.{
  TpResult, TpMessageType, TpConfig, TpSegment, TpSegmentHeader, success, message_too_large,
  first_segment, consecutive_segment, last_segment, single_message,
}

pub record TpSegmenter : Type 0 where
  pub config : TpConfig
  pub next_sequence_number : ℕ

unfoldable pub add_tp_flag : ℕ → ℕ
add_tp_flag type = bit_or type 0x20

-- The header word: the offset in units of 16 bytes above four bits, the last of which is the flag.
unfoldable pub tp_header : ℕ → Bool → ℕ
tp_header offset more_segments = bit_or (offset / 16 * 2 ^ 4) (if more_segments then 1 else 0)

-- Four bytes inserted behind the sixteen of the fixed header.
unfoldable pub serialize_tp_header : List ℕ → ℕ → Bool → List ℕ
serialize_tp_header payload offset more_segments =
    take 16 payload ++ (be32 (tp_header offset more_segments) ++ drop 16 payload)

-- `header[4]` to `header[7]`
abbrev pub put_length : ℕ → List ℕ → List ℕ
put_length len header = take 4 header ++ (be32 len ++ drop 8 header)

unfoldable pub first_payload_size : TpConfig → ℕ → ℕ
first_payload_size c total = min ((c.max_segment_size + 2 ^ 32 - 20) % 2 ^ 32) total

unfoldable pub first_of : TpConfig → Message → ℕ → ℕ → TpSegment
unfolding add_tp_flag
first_of c m total sequence =
    let tp_message = record m { message_type = add_tp_flag m.message_type } in
    let size = first_payload_size c total in
    let header = take 16 (Msg.serialize tp_message) ++ take size m.payload in
    let bytes =
      put_length ((8 + 4 + size) % 2 ^ 32) (serialize_tp_header header 0 (ltb size total)) in
    record {
      header = record {
        message_length = total;
        segment_offset = 0;
        segment_length = length bytes % 2 ^ 16;
        sequence_number = sequence;
        message_type = first_segment;
      };
      payload = bytes;
    }

unfoldable pub next_payload_size : TpConfig → ℕ → ℕ
next_payload_size c remaining = min ((c.max_segment_size + 2 ^ 32 - 4) % 2 ^ 32) remaining % 2 ^ 16

unfoldable pub next_of : TpConfig → List ℕ → ℕ → ℕ → ℕ → TpSegment
next_of c payload total sequence offset =
    let remaining = total - offset in
    let size = next_payload_size c remaining in
    let bytes =
      be32 (tp_header offset (ltb (offset + size) total)) ++ take size (drop offset payload) in
    record {
      header = record {
        message_length = total;
        segment_offset = offset;
        segment_length = length bytes % 2 ^ 16;
        sequence_number = sequence;
        message_type =
            if leb remaining c.max_segment_size then last_segment else consecutive_segment;
      };
      payload = bytes;
    }

abbrev pub cons_segment : TpSegment → Option (List TpSegment) → Option (List TpSegment)
cons_segment s none = none
cons_segment s (some ss) = some (s ∷ ss)

-- `while (payload_offset < total_length)`; `none` is a loop that has not ended within the fuel.
unfoldable pub segment_rest : ℕ → TpConfig → List ℕ → ℕ → ℕ → ℕ → Option (List TpSegment)
segment_rest zero c payload total sequence offset = if ltb offset total then none else some []
segment_rest (suc fuel) c payload total sequence offset =
    let size = next_payload_size c (total - offset) in
    let rest = segment_rest fuel c payload total sequence ((offset + size) % 2 ^ 16) in
    if ltb offset total
    then cons_segment (next_of c payload total sequence offset) rest
    else some []

abbrev pub after_multi :
    TpSegmenter
    → List TpSegment
    → Option (List TpSegment)
    → Option (TpResult × TpSegmenter × List TpSegment)
after_multi s segments none = none
after_multi s segments (some new) = some (
  success,
  record s { next_sequence_number = ((s.next_sequence_number + 1) % 256 + 1) % 256 },
  segments ++ new,
)

-- The sequence number goes up before the segments are made, and once more behind them.
unfoldable pub create_multi_segments :
    ℕ → TpSegmenter → Message → List TpSegment → Option (TpResult × TpSegmenter × List TpSegment)
create_multi_segments fuel s m segments =
    let total = length m.payload % 2 ^ 32 in
    let sequence = s.next_sequence_number in
    let offset = first_payload_size s.config total % 2 ^ 16 in
    after_multi s segments (
      cons_segment (first_of s.config m total sequence)
        (segment_rest fuel s.config m.payload total sequence offset))

unfoldable pub single_of : Message → ℕ → TpSegment
unfolding add_tp_flag
single_of m sequence =
    let tp_message =
      if ltb 1000 (length m.payload)
      then record m { message_type = add_tp_flag m.message_type }
      else m in
    let bytes = Msg.serialize tp_message in
    record {
      header = record {
        message_length = length m.payload % 2 ^ 32;
        segment_offset = 0;
        segment_length = length bytes % 2 ^ 16;
        sequence_number = sequence;
        message_type = single_message;
      };
      payload = bytes;
    }

unfoldable pub segment_message :
    ℕ → TpSegmenter → Message → List TpSegment → Option (TpResult × TpSegmenter × List TpSegment)
segment_message fuel s m segments =
    let multi = create_multi_segments fuel s m segments in
    if ltb s.config.max_message_size (length m.payload)
    then some (message_too_large, s, segments)
    else if leb (length m.payload) s.config.max_segment_size
    then some (
      success,
      record s { next_sequence_number = (s.next_sequence_number + 1) % 256 },
      segments ++ (single_of m s.next_sequence_number ∷ []),
    )
    else multi

unfoldable pub update_config : TpConfig → TpSegmenter → TpSegmenter
update_config config s = record s { config = config }
