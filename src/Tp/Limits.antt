-- ===== src/Tp/Limits.antt =====
-- Messages that the segmenter or the reassembler cannot handle.
use opensomeip.Base.{
  ℕ, zero, suc, ◌+◌, ◌-◌, ◌%◌, ◌^◌, ◌≤◌, ◌<◌, ◌≡◌, refl, ap, ◌∙◌, arith, true, false, ltb, leb,
  lt→ltb, List, length, replicate, length-append, drop, length-drop, Option, none, some,
}
use opensomeip.Base.Map.{find, erase-insert}
use opensomeip.E2e.Header.{E2eHeader}
use opensomeip.E2e.Header as Header
use opensomeip.Message.{Message, serialize, e2e_bytes}
use opensomeip.Tp.{TpConfig, TpSegment, first_segment}
use opensomeip.Tp.Segmenter.{
  TpSegmenter, segment_message, create_multi_segments, segment_rest, single_of, next_payload_size,
  first_payload_size,
}
use opensomeip.Tp.Reassembler.{
  TpReassembler, process_segment, validate_segment, add_segment_to_buffer, is_complete,
  get_complete_message, TpReassemblyBuffer, starts_message, is_segment_received, all_received,
  all_true, new_buffer,
}
use opensomeip.Tp.Reassembler.Delivery.{
  process_segment-added, find_or_create-new, delivered, delivered-holding, holding,
}

segment_rest_endless :
    (fuel : ℕ) (c : TpConfig) (p : List ℕ) (total sequence offset : ℕ)
    → 2 ^ 16 ≤ total
    → offset < 2 ^ 16
    → segment_rest fuel c p total sequence offset ≡ none
unfolding segment_rest
segment_rest_endless zero c p total sequence offset large h =
    rw (lt→ltb offset total (omega arith)) refl
segment_rest_endless (suc fuel) c p total sequence offset large h =
    rw
      (
        lt→ltb offset total (omega arith),
        segment_rest_endless fuel c p total sequence
            ((offset + next_payload_size c (total - offset)) % 2 ^ 16) large (omega arith),
      )
      refl

-- A payload of 65536 bytes or more that the configuration allows is never cut up: the 16-bit offset
-- wraps around, and the loop goes on whatever number of rounds it is given.
pub segment_message_endless :
    (fuel : ℕ) (s : TpSegmenter) (m : Message) (before : List TpSegment)
    → 2 ^ 16 ≤ length m.payload
    → length m.payload < 2 ^ 32
    → length m.payload ≤ s.config.max_message_size
    → s.config.max_segment_size < length m.payload
    → segment_message fuel s m before ≡ none
unfolding segment_message create_multi_segments
segment_message_endless fuel s m before large fits allowed several =
    rw
      (
        admitted,
        apart,
        narrow,
        segment_rest_endless fuel s.config m.payload (length m.payload) s.next_sequence_number
            (first_payload_size s.config (length m.payload) % 2 ^ 16) large (omega arith),
      )
      refl
  where
    admitted : ltb s.config.max_message_size (length m.payload) ≡ false
    admitted = ground arith

    apart : leb (length m.payload) s.config.max_segment_size ≡ false
    apart = ground arith

    narrow : length m.payload % 2 ^ 32 ≡ length m.payload
    narrow = omega arith

e2e_bytes-length : (o : Option E2eHeader) → length (e2e_bytes o) ≤ 12
e2e_bytes-length none = omega arith
e2e_bytes-length (some h) = omega (arith, Header.length-serialize h)

-- The segment of a message that needs no cutting up is refused by every reassembler, which counts
-- the header of the message as payload.
pub process_segment-single :
    (now : ℕ) (m : Message) (sequence : ℕ) (r : TpReassembler) (out : List ℕ)
    → length m.payload < 2 ^ 16 - 28
    → process_segment now (single_of m sequence) r out ≡ (false, r, out)
unfolding process_segment
process_segment-single now m sequence r out small = rw refused refl
  where
    refused : validate_segment r.config (single_of m sequence) ≡ false
    refused =
        unfold validate_segment single_of serialize in
        ground
          (arith, e2e_bytes-length m.e2e_header, length-append (e2e_bytes m.e2e_header) m.payload)

add_empty :
    (now : ℕ) (s : TpSegment)
    → s.header.message_type ≡ first_segment
    → length s.payload ≤ 20
    → add_segment_to_buffer s (new_buffer now s.header.sequence_number s.header.message_length)
      ≡ (true, new_buffer now s.header.sequence_number s.header.message_length)
unfolding add_segment_to_buffer is_segment_received
add_empty now s first empty = rw (first, bare) (unfold all_received in refl)
  where
    bare : length (drop 20 s.payload) ≡ 0
    bare = omega (arith, length-drop 20 s.payload, empty)

-- A first segment that passes the validation, under a sequence number that no buffer is held for, and
-- with no data behind its headers, completes the message at once, with zeros for every byte that it
-- announces.
pub process_segment_empty :
    (now : ℕ) (s : TpSegment) (r : TpReassembler) (out : List ℕ)
    → s.header.message_type ≡ first_segment
    → validate_segment r.config s ≡ true
    → length s.payload ≤ 20
    → find s.header.sequence_number r.reassembly_buffers ≡ none
    → process_segment now s r out ≡ (true, r, replicate s.header.message_length 0)
process_segment_empty now s r out first valid empty free =
    process_segment-added now s r (holding s.header.sequence_number new r) out new new valid
      (find_or_create-new now s r free (ap starts_message first)) (add_empty now s first empty)
    ∙ delivered-holding s.header.sequence_number new new r out
    ∙ gone
  where
    new : TpReassemblyBuffer
    new = new_buffer now s.header.sequence_number s.header.message_length

    gone :
        delivered s.header.sequence_number new r out
        ≡ (true, r, replicate s.header.message_length 0)
    gone =
        unfold new_buffer is_complete all_true get_complete_message in
        ap (λ bs. (true, record r { reassembly_buffers = bs }, replicate s.header.message_length 0))
          (erase-insert s.header.sequence_number _ r.reassembly_buffers free)
