-- ===== src/Tp/Reassembler/Delivery.antt =====
-- `process_segment` on the segments of one message, in their order.
use opensomeip.Base.{
  ℕ, ◌<◌, ◌≡◌, refl, ap, arith, Bool, true, false, ◌&&◌, ◌==◌, take-length, append_nil,
  if◌then◌else◌, List, [], ◌∷◌, length, none, some,
}
use opensomeip.Base.Map.{find, insert, erase, insert-insert, erase-insert}
use opensomeip.Tp.{TpSegment}
use opensomeip.Tp.Reassembler.{
  TpReassemblyBuffer, TpReassembler, process_segment, validate_segment, find_or_create_buffer,
  add_segment_to_buffer, is_complete, get_complete_message, new_buffer, starts_message,
}
use opensomeip.Tp.Reassembler.Buffer.{buffer_at, is_complete-front}

-- The calls for a sequence of segments, each at its own time: whether all returned `true`, the
-- reassembler, and what `complete_message` holds at the end.
unfoldable pub process_all :
    (TpSegment → ℕ) → List TpSegment → TpReassembler → List ℕ → Bool × TpReassembler × List ℕ
process_all at [] r out = (true, r, out)
process_all at (s ∷ ss) r out =
    let (ok, r', out') = process_segment (at s) s r out in
    let (oks, r'', out'') = process_all at ss r' out' in (ok && oks, r'', out'')

-- The reassembler, with a buffer under the sequence number.
abbrev pub holding : ℕ → TpReassemblyBuffer → TpReassembler → TpReassembler
holding sequence b r = record r { reassembly_buffers = insert sequence b r.reassembly_buffers }

-- What a call makes of a buffer that has taken the segment in.
abbrev pub delivered :
    ℕ → TpReassemblyBuffer → TpReassembler → List ℕ → Bool × TpReassembler × List ℕ
delivered sequence b r out =
    if is_complete b
    then (
      true,
      record r { reassembly_buffers = erase b.message_id (insert sequence b r.reassembly_buffers) },
      get_complete_message (record b { complete = true }),
    )
    else (true, holding sequence b r, out)

pub process_segment-added :
    (now : ℕ) (s : TpSegment) (r r' : TpReassembler) (out : List ℕ) (b b' : TpReassemblyBuffer)
    → validate_segment r.config s ≡ true
    → find_or_create_buffer now s r ≡ some (b, r')
    → add_segment_to_buffer s b ≡ (true, b')
    → process_segment now s r out ≡ delivered s.header.sequence_number b' r' out
unfolding process_segment
process_segment-added now s r r' out b b' valid found added = rw (valid, found, added) refl

pub delivered-part :
    (sequence t o k : ℕ) (p : List ℕ) (r : TpReassembler) (out : List ℕ)
    → 0 < k
    → delivered sequence (buffer_at sequence t p o k sequence) r out
      ≡ (true, holding sequence (buffer_at sequence t p o k sequence) r, out)
delivered-part sequence t o k p r out pos =
    rw (is_complete-front sequence t o k sequence p, more) refl
  where
    more : (k == 0) ≡ false
    more = ground arith

pub delivered-whole :
    (sequence t o : ℕ) (p : List ℕ) (r : TpReassembler) (out : List ℕ)
    → o ≡ length p
    → find sequence r.reassembly_buffers ≡ none
    → delivered sequence (buffer_at sequence t p o 0 sequence) r out ≡ (true, r, p)
unfolding get_complete_message is_complete
delivered-whole sequence t o p r out e free =
    rw
      (
        is_complete-front sequence t o 0 sequence p,
        erase-insert sequence (buffer_at sequence t p o 0 sequence) r.reassembly_buffers free,
        e,
        take-length p,
        append_nil p,
      )
      refl

-- An older buffer under the number is of no account.
pub delivered-holding :
    (sequence : ℕ) (b b₀ : TpReassemblyBuffer) (r : TpReassembler) (out : List ℕ)
    → delivered sequence b (holding sequence b₀ r) out ≡ delivered sequence b r out
delivered-holding sequence b b₀ r out =
    ap
      (λ bs.
        if is_complete b
        then (
          true,
          record r { reassembly_buffers = erase b.message_id bs },
          get_complete_message (record b { complete = true }),
        )
        else (true, record r { reassembly_buffers = bs }, out))
      (insert-insert sequence b b₀ r.reassembly_buffers)

pub process_all-cons :
    (at : TpSegment → ℕ) (s : TpSegment) (ss : List TpSegment) (r r' r'' : TpReassembler)
    (out out' out'' : List ℕ)
    → process_segment (at s) s r out ≡ (true, r', out')
    → process_all at ss r' out' ≡ (true, r'', out'')
    → process_all at (s ∷ ss) r out ≡ (true, r'', out'')
unfolding process_all
process_all-cons at s ss r r' r'' out out' out'' one rest = rw (one, rest) refl

pub process_all-one :
    (at : TpSegment → ℕ) (s : TpSegment) (r r' : TpReassembler) (out out' : List ℕ)
    → process_segment (at s) s r out ≡ (true, r', out')
    → process_all at (s ∷ []) r out ≡ (true, r', out')
process_all-one at s r r' out out' one =
    process_all-cons at s [] r r' r' out out' out' one (unfold process_all in refl)

pub find_or_create-found :
    (now : ℕ) (s : TpSegment) (b : TpReassemblyBuffer) (r : TpReassembler)
    → find s.header.sequence_number r.reassembly_buffers ≡ some b
    → find_or_create_buffer now s r ≡ some (b, r)
unfolding find_or_create_buffer
find_or_create-found now s b r e = rw (find_or_create_buffer, e) refl

pub find_or_create-new :
    (now : ℕ) (s : TpSegment) (r : TpReassembler)
    → find s.header.sequence_number r.reassembly_buffers ≡ none
    → starts_message s.header.message_type ≡ true
    → find_or_create_buffer now s r
      ≡ some (
        new_buffer now s.header.sequence_number s.header.message_length,
        holding s.header.sequence_number
            (new_buffer now s.header.sequence_number s.header.message_length)
            r,
      )
unfolding find_or_create_buffer
find_or_create-new now s r e starts = rw (find_or_create_buffer, e, starts) refl
