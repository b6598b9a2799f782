-- ===== src/Tp/Reassembler.antt =====
-- src/tp/tp_reassembler.cpp and the reassembly buffer of include/tp/tp_types.h. A buffer is found by
-- the sequence number of its segments, which is also its `message_id`.
pub mod Buffer
pub mod Delivery
use opensomeip.Base.{
  ℕ, zero, suc, ◌+◌, ◌-◌, ◌*◌, ◌/◌, ◌%◌, ◌^◌, bit_and, bit_or, Bool, true, false, ◌||◌, not, ltb,
  leb, ◌!=◌, if◌then◌else◌, List, [], ◌∷◌, ◌++◌, length, take, drop, get_or, replicate, Option,
  none, some,
}
use opensomeip.Base.Map.{find, insert, erase, retain}
use opensomeip.Base.Bytes.{byte_at}
use opensomeip.Tp.{
  TpMessageType, TpConfig, TpSegment, TpSegmentHeader, first_segment, consecutive_segment,
  last_segment, single_message,
}

pub record TpReassemblyBuffer : Type 0 where
  pub message_id : ℕ
  pub total_length : ℕ
  pub received_data : List ℕ
  pub received_segments : List Bool
  pub start_time : ℕ
  pub last_sequence_number : ℕ
  pub complete : Bool

pub record TpReassembler : Type 0 where
  pub config : TpConfig
  pub reassembly_buffers : List (ℕ × TpReassemblyBuffer)

unfoldable pub new_buffer : ℕ → ℕ → ℕ → TpReassemblyBuffer
new_buffer now message_id len = record {
  message_id = message_id;
  total_length = len;
  received_data = replicate len 0;
  received_segments = [];
  start_time = now;
  last_sequence_number = 0;
  complete = false;
}

-- The flags from `offset` on, as many as are left to test.
unfoldable pub all_received : List Bool → ℕ → ℕ → Bool
all_received flags offset zero = true
all_received flags offset (suc n) =
    let rest = all_received flags (suc offset) n in
    if get_or flags offset false then rest else false

-- The length is cut off to 16 bits by the parameter's type.
unfoldable pub is_segment_received : TpReassemblyBuffer → ℕ → ℕ → Bool
is_segment_received b offset len = all_received b.received_segments offset (len % 2 ^ 16)

-- `resize(total_length, false)`, when the vector is shorter.
abbrev pub resize_flags : ℕ → List Bool → List Bool
resize_flags n flags = flags ++ replicate (n - length flags) false

unfoldable pub set_flag : ℕ → List Bool → List Bool
set_flag i [] = []
set_flag zero (f ∷ flags) = true ∷ flags
set_flag (suc i) (f ∷ flags) = f ∷ set_flag i flags

unfoldable pub set_flags : ℕ → ℕ → List Bool → List Bool
set_flags offset zero flags = flags
set_flags offset (suc n) flags = set_flags (suc offset) n (set_flag offset flags)

unfoldable pub mark_segment_received : ℕ → ℕ → TpReassemblyBuffer → TpReassemblyBuffer
mark_segment_received offset len b = record b {
  received_segments =
      set_flags offset (len % 2 ^ 16) (resize_flags b.total_length b.received_segments);
}

unfoldable pub all_true : List Bool → Bool
all_true [] = true
all_true (f ∷ flags) = let rest = all_true flags in if f then rest else false

unfoldable pub is_complete : TpReassemblyBuffer → Bool
is_complete b = if b.complete then true else all_true b.received_segments

unfoldable pub get_complete_message : TpReassemblyBuffer → List ℕ
get_complete_message b = if is_complete b then b.received_data else []

-- The bytes before the data, as `add_segment_to_buffer` counts them.
abbrev pub header_overhead : TpMessageType → ℕ
header_overhead first_segment = 20
header_overhead consecutive_segment = 4
header_overhead last_segment = 4
header_overhead single_message = 16

-- The same for `validate_segment`, where a single message has none.
abbrev pub checked_overhead : TpMessageType → ℕ
checked_overhead first_segment = 20
checked_overhead consecutive_segment = 4
checked_overhead last_segment = 4
checked_overhead single_message = 0

-- The difference is 0 where the overhead is the larger, as in the source.
unfoldable pub validate_segment : TpConfig → TpSegment → Bool
validate_segment c s =
    let h = s.header in
    let actual = h.segment_length - checked_overhead h.message_type in
    if h.segment_length != length s.payload
    then false
    else if ltb c.max_message_size h.message_length
    then false
    else if ltb h.message_length (h.segment_offset + actual)
    then false
    else true

abbrev pub starts_message : TpMessageType → Bool
starts_message first_segment = true
starts_message consecutive_segment = false
starts_message last_segment = false
starts_message single_message = true

-- The buffer, where there is one; a new one is in the map at once.
unfoldable pub find_or_create_buffer :
    ℕ → TpSegment → TpReassembler → Option (TpReassemblyBuffer × TpReassembler)
find_or_create_buffer now s r =
    let key = s.header.sequence_number in
    elim (find key r.reassembly_buffers) [
      | some b ↦ some (b, r)
      | none ↦
          let b = new_buffer now key s.header.message_length in
          if starts_message s.header.message_type
          then some (b, record r { reassembly_buffers = insert key b r.reassembly_buffers })
          else none
    ]

-- `std::copy(data..., received_data.begin() + position)`
abbrev pub copy_to : ℕ → List ℕ → List ℕ → List ℕ
copy_to position bytes buffer =
    take position buffer ++ (bytes ++ drop (position + length bytes) buffer)

-- A single message is copied to the start of the buffer, every other segment to its offset.
abbrev pub copy_position : TpSegmentHeader → ℕ
copy_position h = elim h.message_type [
  | single_message ↦ 0
  | first_segment ↦ h.segment_offset
  | consecutive_segment ↦ h.segment_offset
  | last_segment ↦ h.segment_offset
]

-- The data of a segment that has some; with none, nothing is copied and no flag is set.
unfoldable pub add_segment_to_buffer : TpSegment → TpReassemblyBuffer → Bool × TpReassemblyBuffer
add_segment_to_buffer s b =
    let h = s.header in
    let bytes = drop (header_overhead h.message_type) s.payload in
    if is_segment_received b h.segment_offset (length bytes)
    then (true, b)
    else if ltb b.total_length (h.segment_offset + length bytes)
    then (false, b)
    else (
      true,
      record (mark_segment_received h.segment_offset (length bytes)
          (record b { received_data = copy_to (copy_position h) bytes b.received_data })) {
            last_sequence_number = h.sequence_number;
          },
    )

-- The value returned, the reassembler, and what `complete_message` holds behind the call.
unfoldable pub process_segment :
    ℕ → TpSegment → TpReassembler → List ℕ → Bool × TpReassembler × List ℕ
process_segment now s r out =
    if validate_segment r.config s
    then elim (find_or_create_buffer now s r) [
      | none ↦ (false, r, out)
      | some (b, r') ↦
          let (added, b') = add_segment_to_buffer s b in
          let buffers = insert s.header.sequence_number b' r'.reassembly_buffers in
          if added
          then (if is_complete b'
              then (
                true,
                record r' { reassembly_buffers = erase b'.message_id buffers },
                get_complete_message (record b' { complete = true }),
              )
              else (true, record r' { reassembly_buffers = buffers }, out))
          else (true, record r' { reassembly_buffers = buffers }, out)
    ]
    else (false, r, out)

unfoldable pub is_reassembling : ℕ → TpReassembler → Bool
is_reassembling message_id r = elim (find message_id r.reassembly_buffers) [
  | none ↦ false
  | some b ↦ true
]

-- `received_bytes += config.max_segment_size` for every flag that is set, a 32-bit sum.
unfoldable pub count_received : ℕ → ℕ → List Bool → ℕ
count_received size acc [] = acc
count_received size acc (f ∷ flags) =
    count_received size (if f then (acc + size) % 2 ^ 32 else acc) flags

-- The received and the total bytes.
unfoldable pub get_reassembly_progress : ℕ → TpReassembler → Option (ℕ × ℕ)
get_reassembly_progress message_id r = elim (find message_id r.reassembly_buffers) [
  | none ↦ none
  | some b ↦
      let received = count_received r.config.max_segment_size 0 b.received_segments in
      some (if ltb b.total_length received then b.total_length else received, b.total_length)
]

unfoldable pub cancel_reassembly : ℕ → TpReassembler → TpReassembler
cancel_reassembly message_id r = record r {
  reassembly_buffers = erase message_id r.reassembly_buffers;
}

unfoldable pub process_timeouts : ℕ → TpReassembler → TpReassembler
process_timeouts now r = record r {
  reassembly_buffers =
      retain (λ b. leb (now - b.start_time) r.config.reassembly_timeout) r.reassembly_buffers;
}

unfoldable pub get_active_reassemblies : TpReassembler → ℕ
get_active_reassemblies r = length r.reassembly_buffers

unfoldable pub update_config : TpConfig → TpReassembler → TpReassembler
update_config config r = record r { config = config }

-- The offset, a `uint16_t`, and the flag behind the fixed header.
unfoldable pub parse_tp_header : List ℕ → Option (ℕ × Bool)
parse_tp_header payload =
    let word =
      bit_or
        (bit_or (bit_or (byte_at payload 16 * 2 ^ 24) (byte_at payload 17 * 2 ^ 16))
          (byte_at payload 18 * 2 ^ 8))
        (byte_at payload 19) in
    if ltb (length payload) 20 then none else some (word / 2 ^ 4 * 16 % 2 ^ 16, bit_and word 1 != 0)
