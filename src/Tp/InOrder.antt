-- ===== src/Tp/InOrder.antt =====
-- The segmenter and the reassembler together, on segments that arrive in their order.
use opensomeip.Base.{
  ℕ, zero, suc, ◌+◌, ◌-◌, ◌%◌, ◌^◌, ◌≤◌, ◌<◌, ◌≡◌, refl, sym, ap, ◌∙◌, arith, true, false, ltb, leb,
  ge→ltb, lt→ltb, List, [], ◌∷◌, ◌++◌, length, none, some, ◌⊎◌, inl, inr, Bool-cases, ◌==◌,
}
use mathlib.Core.Path.{subst}
use opensomeip.Base.Map.{find, insert-insert, find-insert_self}
use opensomeip.Message.{Message}
use opensomeip.Tp.{TpConfig, TpSegment, success}
use opensomeip.Tp.Segmenter.{
  TpSegmenter, segment_message, create_multi_segments, segment_rest, cons_segment, first_of,
  next_of, first_payload_size, next_payload_size,
}
use opensomeip.Tp.Segmenter.Chunks.{
  first_of-Carries, first_of-valid, next_of-Carries, next_of-valid, first_payload_size_lem,
  next_payload_size_lem,
}
use opensomeip.Tp.Reassembler.{TpReassemblyBuffer, TpReassembler, process_segment, new_buffer}
use opensomeip.Tp.Reassembler.Buffer.{Carries, buffer_at, add_segment-front, add_segment-new}
use opensomeip.Tp.Reassembler.Delivery.{
  process_all, process_all-cons, process_all-one, delivered-holding, holding, delivered,
  delivered-part, delivered-whole, process_segment-added, find_or_create-found, find_or_create-new,
}

segment_rest-stop :
    (fuel : ℕ) (c : TpConfig) (p : List ℕ) (total sequence offset : ℕ)
    → total ≤ offset
    → segment_rest fuel c p total sequence offset ≡ some []
unfolding segment_rest
segment_rest-stop zero c p total sequence offset h = rw (ge→ltb offset total h) refl
segment_rest-stop (suc fuel) c p total sequence offset h = rw (ge→ltb offset total h) refl

segment_rest-step :
    (fuel : ℕ) (c : TpConfig) (p : List ℕ) (total sequence offset size : ℕ)
    → offset < total
    → next_payload_size c (total - offset) ≡ size
    → offset + size < 2 ^ 16
    → segment_rest (suc fuel) c p total sequence offset
      ≡ cons_segment
          (next_of c p total sequence offset)
          (segment_rest fuel c p total sequence (offset + size))
unfolding segment_rest
segment_rest-step fuel c p total sequence offset size h e fits =
    rw (lt→ltb offset total h, e, narrow) refl
  where
    narrow : (offset + size) % 2 ^ 16 ≡ offset + size
    narrow = omega arith

split : (k n : ℕ) → (0 < n) × (n ≤ k) → (k ≡ n + 0) ⊎ ((k' : ℕ) × (0 < k') × (k ≡ n + k'))
split k n (pos, le) = elim (Bool-cases (k == n)) [
  | inl same ↦ inl (ground arith)
  | inr other ↦ inr (k - n, ground arith, omega arith)
]

module _ (at : TpSegment → ℕ) (c : TpConfig) (low : 20 < c.max_segment_size)
    (high : c.max_segment_size < 2 ^ 16) (m : Message) (sequence t : ℕ)
    (small : length m.payload < 2 ^ 16) (r : TpReassembler) (out : List ℕ)
    (allowed : length m.payload ≤ r.config.max_message_size)
    (free : find sequence r.reassembly_buffers ≡ none) where
  abbrev p : List ℕ
  p = m.payload

  abbrev held : ℕ → ℕ → TpReassembler
  held o k = holding sequence (buffer_at sequence t p o k sequence) r

  held_twice :
      (o k o' k' : ℕ)
      → holding sequence (buffer_at sequence t p o' k' sequence) (held o k) ≡ held o' k'
  held_twice o k o' k' =
      ap (λ bs. record r { reassembly_buffers = bs })
        (insert-insert sequence _ _ r.reassembly_buffers)

  -- The call for a later segment.
  process_next :
      (o n k : ℕ)
      → next_payload_size c (length p - o) ≡ n
      → 0 < n
      → length p ≡ o + (n + k)
      → process_segment
          (at (next_of c p (length p) sequence o))
          (next_of c p (length p) sequence o)
          (held o (n + k))
          out
        ≡ delivered sequence (buffer_at sequence t p (o + n) k sequence) (held o (n + k)) out
  unfolding next_of
  process_next o n k e pos whole =
      process_segment-added (at s) s (held o (n + k)) (held o (n + k)) out
        (buffer_at sequence t p o (n + k) sequence) (buffer_at sequence t p (o + n) k sequence)
        (next_of-valid c low high m sequence small r.config o (omega arith) allowed)
        (find_or_create-found (at s) s _ (held o (n + k))
          (find-insert_self sequence _ r.reassembly_buffers))
        (add_segment-front p sequence t o n k s
          (subst (λ (x : ℕ). Carries p sequence o x s) e
            (next_of-Carries c low high m sequence small o))
          pos whole small sequence)
    where
      s : TpSegment
      s = next_of c p (length p) sequence o

  -- `Arrived o k ss`: the segments from `o` on, and what their arrival does.
  abbrev Arrived : ℕ → ℕ → ℕ → Type 0
  Arrived fuel o k =
      (ss : List TpSegment) × (segment_rest fuel c p (length p) sequence o ≡ some ss)
      × (process_all at ss (held o k) out ≡ (true, r, p))

  last_arrival :
      (fuel o n : ℕ)
      → next_payload_size c (length p - o) ≡ n
      → 0 < n
      → length p ≡ o + (n + 0)
      → Arrived (suc fuel) o (n + 0)
  last_arrival fuel o n e pos whole = (
    next_of c p (length p) sequence o ∷ [],
    segment_rest-step fuel c p (length p) sequence o n (omega arith) e (omega arith)
        ∙ ap (cons_segment (next_of c p (length p) sequence o))
            (segment_rest-stop fuel c p (length p) sequence (o + n) (omega arith)),
    process_all-one at _ (held o (n + 0)) r out p (
        process_next o n 0 e pos whole
        ∙ delivered-holding sequence _ _ r out
        ∙ delivered-whole sequence t (o + n) p r out (omega arith) free),
  )

  next_arrival :
      (fuel o n k : ℕ)
      → next_payload_size c (length p - o) ≡ n
      → 0 < n
      → 0 < k
      → length p ≡ o + (n + k)
      → Arrived fuel (o + n) k
      → Arrived (suc fuel) o (n + k)
  next_arrival fuel o n k e pos more whole (ss, es, later) = (
    next_of c p (length p) sequence o ∷ ss,
    segment_rest-step fuel c p (length p) sequence o n (omega arith) e (omega arith)
        ∙ ap (cons_segment (next_of c p (length p) sequence o)) es,
    process_all-cons at _ ss (held o (n + k)) (held (o + n) k) r out out p
        (process_next o n k e pos whole
          ∙ delivered-part sequence t (o + n) k p (held o (n + k)) out more
          ∙ ap (λ x. (true, x, out)) (held_twice o (n + k) (o + n) k))
        later,
  )

  arrivals : (fuel o k : ℕ) → k ≤ fuel → 0 < k → length p ≡ o + k → Arrived fuel o k
  arrivals zero o k enough pos whole = absurd (omega arith)
  arrivals (suc fuel) o k enough pos whole = elim (split k n sized) [
    | inl last ↦
        subst (λ (x : ℕ). Arrived (suc fuel) o x) (sym last)
          (last_arrival fuel o n refl sized.0 (omega arith))
    | inr (k', more, e) ↦
        subst (λ (x : ℕ). Arrived (suc fuel) o x) (sym e)
          (next_arrival fuel o n k' refl sized.0 more (omega arith)
            (arrivals fuel (o + n) k' (omega (arith, sized)) more (omega arith)))
  ]
    where
      n : ℕ
      n = next_payload_size c (length p - o)

      sized : (0 < n) × (n ≤ k)
      sized = omega (arith, next_payload_size_lem c low high (length p - o) (omega arith))

module _ (at : TpSegment → ℕ) (s : TpSegmenter) (low : 20 < s.config.max_segment_size)
    (high : s.config.max_segment_size < 2 ^ 16) (m : Message) (small : length m.payload < 2 ^ 16)
    (large : s.config.max_segment_size < length m.payload) (r : TpReassembler) (out : List ℕ)
    (allowed : length m.payload ≤ r.config.max_message_size)
    (free : find s.next_sequence_number r.reassembly_buffers ≡ none) where
  abbrev first : TpSegment
  first = first_of s.config m (length m.payload) s.next_sequence_number

  abbrev size : ℕ
  size = first_payload_size s.config (length m.payload)

  sized : size ≡ s.config.max_segment_size - 20
  sized = omega (arith, first_payload_size_lem s.config low high (length m.payload) small)

  process_first : process_segment (at first) first r out ≡ (
    true,
    holding s.next_sequence_number
        (buffer_at s.next_sequence_number
          (at first)
          m.payload
          size
          (length m.payload - size)
          s.next_sequence_number)
        r,
    out,
  )
  unfolding first_of
  process_first =
      process_segment-added (at first) first r (holding s.next_sequence_number new r) out new
        (buffer_at s.next_sequence_number (at first) m.payload size (length m.payload - size)
          s.next_sequence_number)
        (first_of-valid s.config low high m s.next_sequence_number small r.config allowed)
        (find_or_create-new (at first) first r free refl)
        (add_segment-new m.payload s.next_sequence_number (at first) size (length m.payload - size)
          first (first_of-Carries s.config low high m s.next_sequence_number small)
          (omega (arith, sized)) (omega (arith, sized)) small)
      ∙ delivered-holding s.next_sequence_number _ new r out
      ∙ delivered-part s.next_sequence_number (at first) size (length m.payload - size) m.payload r
          out (omega (arith, sized))
    where
      new : TpReassemblyBuffer
      new = new_buffer (at first) s.next_sequence_number (length m.payload)

  -- A payload of more than one segment, and of fewer than 2 ^ 16 bytes, is cut up within one round for
  -- each of its bytes, and the segments, as they arrive in their order at a reassembler that knows
  -- nothing under their number, give the payload back and leave the reassembler as it was.
  pub segment_message-in_order :
      (before : List TpSegment)
      → length m.payload ≤ s.config.max_message_size
      → (ss : List TpSegment) × (s' : TpSegmenter) × (segment_message (length m.payload) s m before
          ≡ some (success, s', before ++ ss))
        × (process_all at ss r out ≡ (true, r, m.payload))
  unfolding segment_message create_multi_segments
  segment_message-in_order before fits =
      let (ss, es, later) =
        arrivals at s.config low high m s.next_sequence_number (at first) small r out allowed free
          (length m.payload) size (length m.payload - size) (omega arith) (omega (arith, sized))
          (omega (arith, sized)) in
      (
        first ∷ ss,
        record s { next_sequence_number = ((s.next_sequence_number + 1) % 256 + 1) % 256 },
        rw (admitted, several, narrow, narrow_size, es) refl,
        process_all-cons at first ss r _ r out out m.payload process_first later,
      )
    where
      admitted : ltb s.config.max_message_size (length m.payload) ≡ false
      admitted = ground arith

      several : leb (length m.payload) s.config.max_segment_size ≡ false
      several = ground arith

      narrow : length m.payload % 2 ^ 32 ≡ length m.payload
      narrow = omega arith

      narrow_size : size % 2 ^ 16 ≡ size
      narrow_size = omega (arith, sized)
